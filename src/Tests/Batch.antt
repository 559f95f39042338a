-- ===== src/Tests/Batch.antt =====
-- A batch of two uploads, of which one is cancelled before it begins.
use rabbit_storage_explorer.Base.{
  ℕ, ◌+◌, ◌/◌, ◌≡◌, refl, true, false, List, [], ◌∷◌, ◌++◌, text, ok, arith, ◌==◌, Error, Text,
}
use rabbit_storage_explorer.Transfer.Progress.{
  Float, Event, upload, file_done, new, transfer_finished,
}
use rabbit_storage_explorer.Transfer.Hub.{
  CancellationTokens, TransferHub, Parallelism, new_hub, admit, end_task, settle, unregister_file,
  task_done, announced, returned, unstarted,
}
use rabbit_storage_explorer.Transfer.Hub.Batch.{
  begun, admitted, task_ended, IsBalanced, Run-IsBalanced,
}

abbrev pub rounded : Float
rounded = record {
  F64 = ℕ;
  zero = 0;
  is_zero = λ x. x == 0;
  per_second = λ bytes ns. bytes;
  average = λ x y. (x + y) / 2;
}

-- A token is its number; a child is told from its parent by the caller alone.
abbrev pub counted_tokens : CancellationTokens
counted_tokens = record {
  Token = ℕ;
  Store = ℕ × List ℕ;
  fresh = λ s. (s.0, (s.0 + 1, s.1));
  child_token = λ parent s. (s.0, (s.0 + 1, s.1));
  cancel = λ t s. (s.0, t ∷ s.1);
}

abbrev idle : TransferHub rounded counted_tokens
idle = new_hub 0 (0, [])

abbrev parallel : Parallelism
parallel = record { upload_parallelism = 4; download_parallelism = 4 }

abbrev say : Error → Text
say e = text "failed"

abbrev two_files : TransferHub rounded counted_tokens
two_files = (admit 5 parallel 2 300 idle).1

abbrev one_left : TransferHub rounded counted_tokens × List (Event rounded)
one_left = end_task upload 0 say false false (returned (ok tt)) two_files

abbrev none_left : TransferHub rounded counted_tokens × List (Event rounded)
none_left = end_task upload 1 say true true unstarted one_left.0

abbrev events : List (Event rounded)
events = (([] ++ (announced (admit 5 parallel 2 300 idle).0 [] ∷ [])) ++ one_left.1) ++ none_left.1

Run-IsBalanced_example : IsBalanced none_left.0 0 1 events
unfolding new_hub
Run-IsBalanced_example = Run-IsBalanced (
    task_ended upload 1 say true true unstarted (
      task_ended upload 0 say false false (returned (ok tt))
        (admitted 5 parallel 2 300 [] (omega arith) (omega arith) (begun 0 (0, [])))))

report : none_left.1 ≡ transfer_finished 1 0 0 [] ∷ []
unfolding end_task settle task_done admit new_hub unregister_file file_done new
report = refl
