-- ===== src/Storage/Nfs/Backend.antt =====
-- The NFS backend as a StorageBackend: its own methods, and the trait's where it has none.
use rabbit_storage_explorer.Base.{ℕ, true}
use rabbit_storage_explorer.Storage.{StorageBackend}
use rabbit_storage_explorer.Storage.Defaults.{default_get_vault, default_put_vault, default_rename}
use rabbit_storage_explorer.Storage.Nfs.Server.{NfsServer}
use rabbit_storage_explorer.Storage.Nfs.{NfsBackend}
use rabbit_storage_explorer.Storage.Nfs.Files.{
  put, put_throttled, get, get_stream, get_range, read_header,
}
use rabbit_storage_explorer.Storage.Nfs.Folders.{
  list_dir, list_recursive, prepare_parents, delete, health_check,
}
use rabbit_storage_explorer.Storage.Nfs.Uploads.{
  create_multipart, upload_part, complete_multipart, abort_multipart,
}

-- The worker always hands a sink to `upload_part`.
abbrev pub nfs : NfsServer → ℕ → StorageBackend
nfs N fuel = record {
  State = NfsBackend N.State;
  list = list_dir N fuel;
  list_recursive = list_recursive N fuel;
  get = get N fuel;
  put = put N;
  prepare_parents = prepare_parents N;
  delete = delete N fuel;
  rename =
      default_rename (get N fuel) (put N) (prepare_parents N) (list_recursive N fuel)
        (delete N fuel);
  health_check = health_check N;
  put_throttled = put_throttled N;
  get_vault = default_get_vault (get N fuel) (put N);
  put_vault = default_put_vault (get N fuel) (put N);
  get_stream = get_stream N fuel;
  get_range = get_range N fuel;
  read_header = read_header N;
  create_multipart = create_multipart N;
  upload_part = λ mp n part. upload_part N mp n part true;
  complete_multipart = complete_multipart N;
  abort_multipart = abort_multipart N;
}
