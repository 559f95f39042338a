-- ===== src/Transfer/Hub.antt =====
-- `TransferHub` of src/worker.rs: the one batch that uploads and downloads share, and how the task of
-- a file ends in `run_upload` and `run_download`. Each method is one step, as it holds the lock. The
-- cancellation tokens of tokio_util are a parameter; a semaphore is the number of its permits.
use rabbit_storage_explorer.Base.{
  ℕ, ◌+◌, ◌-◌, ◌%◌, max, Bool, true, false, ◌&&◌, not, Option, none, some, List, [], ◌∷◌, ◌++◌,
  take, length, u64_mod, if◌then◌else◌, ◌==◌, Text, Result, ok, err, Error,
}
use rabbit_storage_explorer.Base.NatMap
use rabbit_storage_explorer.Base.NatMap.{NatMap}
use rabbit_storage_explorer.Transfer.Progress.{
  Float, Progress, TransferKind, FileProgress, Event, transfer_started, transfer_extended,
  transfer_finished, new, file_done,
}
pub mod Batch

pub record CancellationTokens : Type 1 where
  pub Token : Type 0
  -- which tokens there are, and which are cancelled
  pub Store : Type 0
  pub fresh : Store → Token × Store
  pub child_token : Token → Store → Token × Store
  pub cancel : Token → Store → Store

module _ (F : Float) (T : CancellationTokens) where
  -- What a batch shares with its tasks.
  pub record BatchState : Type 0 where
    pub is_open : Bool
    pub outstanding : ℕ
    pub total_files : ℕ
    pub total_bytes : ℕ
    pub progress : Progress F
    pub errors : List Text
    pub upload_sem : ℕ
    pub download_sem : ℕ
    pub cancel : T.Token

  -- `tokens` stands for the tokens that are alive.
  pub record TransferHub : Type 0 where
    pub state : BatchState
    pub file_cancels : NatMap T.Token
    pub next_id : ℕ
    pub tokens : T.Store

  -- What a task keeps beside the objects that it shares with the batch.
  pub record Admission : Type 0 where
    pub cancel : T.Token
    pub fresh : Bool
    pub total_files : ℕ
    pub total_bytes : ℕ

-- The settings that `admit` reads.
pub record Parallelism : Type 0 where
  pub upload_parallelism : ℕ
  pub download_parallelism : ℕ

-- How the transfer of a file came out: it was cancelled before it began, or it returned.
pub data Ending : Type 0 where
  unstarted : Ending
  returned : Result (Unit {0}) → Ending

module _ {F : Float} {T : CancellationTokens} where
  unfoldable pub new_hub : ℕ → T.Store → TransferHub F T
  new_hub now store =
      let (token, tokens) = T.fresh store in
      record {
        state = record {
          is_open = false;
          outstanding = 0;
          total_files = 0;
          total_bytes = 0;
          progress = new F now;
          errors = [];
          upload_sem = 1;
          download_sem = 1;
          cancel = token;
        };
        file_cancels = [];
        next_id = 0;
        tokens = tokens;
      }

  unfoldable pub take_id : TransferHub F T → ℕ × TransferHub F T
  take_id h = (h.next_id, record h { next_id = (h.next_id + 1) % u64_mod })

  unfoldable pub register_file : ℕ → T.Token → TransferHub F T → T.Token × TransferHub F T
  register_file id parent h =
      let (token, tokens) = T.child_token parent h.tokens in
      (token, record h { file_cancels = NatMap.insert h.file_cancels id token; tokens = tokens })

  abbrev pub cancel_found : Option T.Token → TransferHub F T → TransferHub F T
  cancel_found none h = h
  cancel_found (some t) h = record h { tokens = T.cancel t h.tokens }

  unfoldable pub cancel_file : ℕ → TransferHub F T → TransferHub F T
  cancel_file id h = cancel_found (NatMap.get h.file_cancels id) h

  unfoldable pub cancel_all : TransferHub F T → TransferHub F T
  cancel_all h = record h { tokens = T.cancel h.state.cancel h.tokens }

  unfoldable pub unregister_file : ℕ → TransferHub F T → TransferHub F T
  unregister_file id h = record h { file_cancels = NatMap.remove h.file_cancels id }

  -- The batch that a closed hub opens.
  abbrev fresh_batch : ℕ → Parallelism → TransferHub F T → TransferHub F T
  fresh_batch now settings h =
      let (token, tokens) = T.fresh h.tokens in
      record h {
        state = record {
          is_open = true;
          outstanding = 0;
          total_files = 0;
          total_bytes = 0;
          progress = new F now;
          errors = [];
          upload_sem = max settings.upload_parallelism 1;
          download_sem = max settings.download_parallelism 1;
          cancel = token;
        };
        file_cancels = [];
        tokens = tokens;
      }

  abbrev extended : ℕ → ℕ → TransferHub F T → TransferHub F T
  extended count bytes h = record h {
    state = record h.state {
      outstanding = (h.state.outstanding + count) % u64_mod;
      total_files = (h.state.total_files + count) % u64_mod;
      total_bytes = (h.state.total_bytes + bytes) % u64_mod;
    };
  }

  unfoldable pub admit : ℕ → Parallelism → ℕ → ℕ → TransferHub F T → Admission F T × TransferHub F T
  admit now settings count bytes h =
      let fresh = not h.state.is_open in
      let h' = extended count bytes (if fresh then fresh_batch now settings h else h) in
      (
        (record {
          cancel = h'.state.cancel;
          fresh = fresh;
          total_files = h'.state.total_files;
          total_bytes = h'.state.total_bytes;
        }),
        h',
      )

  -- The event that `run_upload` and `run_download` send then.
  abbrev pub announced : Admission F T → List (FileProgress F) → Event F
  announced a roster =
      if a.fresh
      then transfer_started a.total_files a.total_bytes roster
      else transfer_extended a.total_files a.total_bytes roster

  -- At most 20 errors are reported.
  abbrev pub finished : BatchState F T → Event F
  finished b =
      transfer_finished b.progress.uploaded b.progress.downloaded b.progress.failed
        (take 20 b.errors)

  unfoldable pub task_done : TransferHub F T → TransferHub F T × List (Event F)
  task_done h =
      let left = h.state.outstanding - 1 in
      if h.state.is_open && left == 0
      then (
        record h { state = record h.state { is_open = false; outstanding = left } },
        finished h.state ∷ [],
      )
      else (record h { state = record h.state { outstanding = left } }, [])

  abbrev with_done : TransferHub F T → Progress F × Event F → TransferHub F T × List (Event F)
  with_done h (p, event) = (record h { state = record h.state { progress = p } }, event ∷ [])

  abbrev with_error : Bool → Text → TransferHub F T → TransferHub F T
  with_error true message h = h
  with_error false message h = record h {
    state = record h.state { errors = h.state.errors ++ (message ∷ []) };
  }

  -- The end of a task: `file_cancelled` and `batch_cancelled` are what its tokens answer then, and
  -- `message` formats an error.
  unfoldable pub settle :
      TransferKind
      → ℕ
      → (Error → Text)
      → Bool
      → Bool
      → Ending
      → TransferHub F T
      → TransferHub F T × List (Event F)
  settle kind id message file_cancelled batch_cancelled unstarted h =
      if batch_cancelled then (h, []) else with_done h (file_done id kind false h.state.progress)
  settle kind id message file_cancelled batch_cancelled (returned (ok done)) h =
      with_done h (file_done id kind true h.state.progress)
  settle kind id message file_cancelled batch_cancelled (returned (err e)) h =
      let h' = with_error file_cancelled (message e) h in
      with_done h' (file_done id kind false h'.state.progress)

  unfoldable pub end_task :
      TransferKind
      → ℕ
      → (Error → Text)
      → Bool
      → Bool
      → Ending
      → TransferHub F T
      → TransferHub F T × List (Event F)
  unfolding settle unregister_file task_done
  end_task kind id message file_cancelled batch_cancelled ending h =
      let (h', settled) = settle kind id message file_cancelled batch_cancelled ending h in
      let (h'', drained) = task_done (unregister_file id h') in (h'', settled ++ drained)
