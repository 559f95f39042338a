-- ===== src/Transfer/Hub/Batch.antt =====
-- The bookkeeping of a batch, over every order of its steps.
use rabbit_storage_explorer.Base.{
  ℕ, append-nil, append_assoc, subst, leb, ◌/◌, ◌+◌, ◌-◌, ◌%◌, ◌≤◌, ◌<◌, ◌≡◌, refl, ap, ◌∙◌, Bool,
  true, false, Option, none, some, List, [], ◌∷◌, ◌++◌, u64_mod, if◌then◌else◌, arith, Text, ok,
  err, Error, ltb, ◌==◌, Bool-cases, inl, inr,
}
use rabbit_storage_explorer.Base.NatMap
use rabbit_storage_explorer.Transfer.Progress.{
  update, FileTrack, Float, Progress, TransferKind, upload, download, FileProgress, Event,
  transfer_progress, transfer_started, transfer_extended, transfer_finished, toast, new, file_start,
  file_resume, tick, file_done,
}
use rabbit_storage_explorer.Transfer.Hub.{
  CancellationTokens, TransferHub, Parallelism, Ending, unstarted, returned, new_hub, register_file,
  unregister_file, cancel_file, cancel_all, admit, announced, task_done, settle, Admission,
  cancel_found, end_task, take_id, finished,
}

module _ {F : Float} where
  -- The batches that were announced, and those that were reported finished.
  abbrev pub started : List (Event F) → ℕ
  started [] = 0
  started (transfer_started n bytes roster ∷ es) = 1 + started es
  started (transfer_extended n bytes roster ∷ es) = started es
  started (transfer_progress n failed bytes rows last ∷ es) = started es
  started (transfer_finished n m failed errors ∷ es) = started es
  started (toast t ∷ es) = started es

  abbrev pub ended : List (Event F) → ℕ
  ended [] = 0
  ended (transfer_started n bytes roster ∷ es) = ended es
  ended (transfer_extended n bytes roster ∷ es) = ended es
  ended (transfer_progress n failed bytes rows last ∷ es) = ended es
  ended (transfer_finished n m failed errors ∷ es) = 1 + ended es
  ended (toast t ∷ es) = ended es

module _ {F : Float} where
  started-append : (es more : List (Event F)) → started (es ++ more) ≡ started es + started more
  started-append [] more = omega arith
  started-append (transfer_started n bytes roster ∷ es) more = omega (arith, started-append es more)
  started-append (transfer_extended n bytes roster ∷ es) more = started-append es more
  started-append (transfer_progress n failed bytes rows last ∷ es) more = started-append es more
  started-append (transfer_finished n m failed errors ∷ es) more = started-append es more
  started-append (toast t ∷ es) more = started-append es more

  ended-append : (es more : List (Event F)) → ended (es ++ more) ≡ ended es + ended more
  ended-append [] more = omega arith
  ended-append (transfer_started n bytes roster ∷ es) more = ended-append es more
  ended-append (transfer_extended n bytes roster ∷ es) more = ended-append es more
  ended-append (transfer_progress n failed bytes rows last ∷ es) more = ended-append es more
  ended-append (transfer_finished n m failed errors ∷ es) more = omega (arith, ended-append es more)
  ended-append (toast t ∷ es) more = ended-append es more

  abbrev IsQuiet : List (Event F) → Type 0
  IsQuiet sent = (started sent ≡ 0) × (ended sent ≡ 0)

  update_same :
      (now id n : ℕ) (o : Option (FileTrack F)) (p : Progress F)
      → let p' = update now id n o p in
        p'.uploaded + p'.downloaded + p'.failed ≡ p.uploaded + p.downloaded + p.failed
  update_same now id n none p = refl
  update_same now id n (some t) p = refl

-- A task whose batch is cancelled before it began leaves no trace in the counters.
abbrev pub skips : Bool → Ending → ℕ
skips true unstarted = 1
skips false unstarted = 0
skips batch_cancelled (returned r) = 0

module _ {F : Float} {T : CancellationTokens} where
  -- The files that the counters know of.
  abbrev pub settled_files : TransferHub F T → ℕ
  settled_files h =
      h.state.progress.uploaded + h.state.progress.downloaded + h.state.progress.failed

  abbrev pub batch_files : TransferHub F T → ℕ
  batch_files h = if h.state.is_open then h.state.total_files else 0

  abbrev pub with_progress : TransferHub F T → Progress F → TransferHub F T
  with_progress h p = record h { state = record h.state { progress = p } }

  -- The hubs that the steps of the window and of the tasks lead to, with the tasks alive, the files
  -- of the batch that were skipped, and the events so far.
  pub data Run : TransferHub F T → ℕ → ℕ → List (Event F) → Type 0 where
    begun : (now : ℕ) (store : T.Store) → Run (new_hub now store) 0 0 []
    admitted :
        {h : TransferHub F T} {live skipped : ℕ} {es : List (Event F)} (now : ℕ)
        (settings : Parallelism) (count bytes : ℕ) (roster : List (FileProgress F))
        → 1 ≤ count
        → batch_files h + count < u64_mod
        → Run h live skipped es
        → Run
            (admit now settings count bytes h).1
            (live + count)
            (if h.state.is_open then skipped else 0)
            (es ++ (announced (admit now settings count bytes h).0 roster ∷ []))
    registered :
        {h : TransferHub F T} {live skipped : ℕ} {es : List (Event F)} (id : ℕ) (parent : T.Token)
        → Run h live skipped es
        → Run (register_file id parent h).1 live skipped es
    numbered :
        {h : TransferHub F T} {live skipped : ℕ} {es : List (Event F)}
        → Run h live skipped es
        → Run (take_id h).1 live skipped es
    file_cancelled :
        {h : TransferHub F T} {live skipped : ℕ} {es : List (Event F)} (id : ℕ)
        → Run h live skipped es
        → Run (cancel_file id h) live skipped es
    all_cancelled :
        {h : TransferHub F T} {live skipped : ℕ} {es : List (Event F)}
        → Run h live skipped es
        → Run (cancel_all h) live skipped es
    row_set :
        {h : TransferHub F T} {live skipped : ℕ} {es : List (Event F)} (now id : ℕ)
        (kind : TransferKind) (name : Text) (total done : ℕ)
        → Run h live skipped es
        → Run
            (with_progress h (file_resume now id kind name total done h.state.progress))
            live
            skipped
            es
    row_started :
        {h : TransferHub F T} {live skipped : ℕ} {es : List (Event F)} (now id : ℕ)
        (kind : TransferKind) (name : Text) (total : ℕ)
        → Run h live skipped es
        → Run (with_progress h (file_start now id kind name total h.state.progress)) live skipped es
    ticked :
        {h : TransferHub F T} {live skipped : ℕ} {es : List (Event F)} (now id n : ℕ)
        → Run h live skipped es
        → Run
            (with_progress h (tick now id n h.state.progress).0)
            live
            skipped
            (es ++ (tick now id n h.state.progress).1)
    task_ended :
        {h : TransferHub F T} {live skipped : ℕ} {es : List (Event F)} (kind : TransferKind)
        (id : ℕ) (message : Error → Text) (cancelled batch_cancelled : Bool) (ending : Ending)
        → Run h (live + 1) skipped es
        → Run
            (end_task kind id message cancelled batch_cancelled ending h).0
            live
            (skipped + skips batch_cancelled ending)
            (es ++ (end_task kind id message cancelled batch_cancelled ending h).1)

  pub record IsBalanced (h : TransferHub F T) (live skipped : ℕ) (es : List (Event F))
      : Type 0 where
    pub outstanding : h.state.outstanding ≡ live
    pub while_live : h.state.is_open ≡ ltb 0 live
    pub files : settled_files h + skipped + live ≡ h.state.total_files
    pub in_range : h.state.total_files < u64_mod
    pub one_report : started es ≡ ended es + (if h.state.is_open then 1 else 0)

  new_hub-IsBalanced : (now : ℕ) (store : T.Store) → IsBalanced (new_hub now store) 0 0 []
  unfolding new_hub new
  new_hub-IsBalanced now store = record {
    outstanding = refl;
    while_live = refl;
    files = refl;
    in_range = omega arith;
    one_report = refl;
  }

  -- A step that changes none of the fields that count.
  abbrev SameBatch : TransferHub F T → TransferHub F T → Type 0
  SameBatch h h' =
      (h'.state.outstanding ≡ h.state.outstanding)
      × (h'.state.is_open ≡ h.state.is_open)
      × (settled_files h' ≡ settled_files h)
      × (h'.state.total_files ≡ h.state.total_files)

  same_batch :
      (h h' : TransferHub F T) (live skipped : ℕ) (es sent : List (Event F))
      → SameBatch h h'
      → IsQuiet sent
      → IsBalanced h live skipped es
      → IsBalanced h' live skipped (es ++ sent)
  same_batch h h' live skipped es sent (out, op, set, tot) (st, en) b = record {
    outstanding = out ∙ b.outstanding;
    while_live = op ∙ b.while_live;
    files = omega (arith, set, tot, b.files);
    in_range = omega (arith, tot, b.in_range);
    one_report =
        rw op (omega (arith, started-append es sent, ended-append es sent, st, en, b.one_report));
  }

  silent :
      (h h' : TransferHub F T) (live skipped : ℕ) (es : List (Event F))
      → SameBatch h h'
      → IsBalanced h live skipped es
      → IsBalanced h' live skipped es
  silent h h' live skipped es same b =
      rw (append-nil es) at (same_batch h h' live skipped es [] same (refl, refl) b)

  announced_counts :
      (a : Admission F T) (roster : List (FileProgress F))
      → (started (announced a roster ∷ []) ≡ (if a.fresh then 1 else 0))
        × (ended (announced a roster ∷ []) ≡ 0)
  announced_counts a roster = elim (Bool-cases a.fresh) [
    | inl e ↦ rw e (refl, refl)
    | inr n ↦ rw n (refl, refl)
  ]

  admit-IsBalanced :
      (h : TransferHub F T) (live skipped : ℕ) (es : List (Event F)) (now : ℕ)
      (settings : Parallelism) (count bytes : ℕ) (roster : List (FileProgress F))
      → 1 ≤ count
      → batch_files h + count < u64_mod
      → IsBalanced h live skipped es
      → IsBalanced
          (admit now settings count bytes h).1
          (live + count)
          (if h.state.is_open then skipped else 0)
          (es ++ (announced (admit now settings count bytes h).0 roster ∷ []))
  unfolding admit new
  admit-IsBalanced h live skipped es now settings count bytes roster pos room b =
      let a = (admit now settings count bytes h).0 in
      let says = announced_counts a roster in
      let sum : started (es ++ (announced a roster ∷ []))
          ≡ ended (es ++ (announced a roster ∷ [])) + 1 =
        ground (
          arith,
          started-append es (announced a roster ∷ []),
          ended-append es (announced a roster ∷ []),
          says.0,
          says.1,
          b.one_report,
        ) in
      elim (Bool-cases h.state.is_open) [
        | inl e ↦
            let fits : h.state.total_files + count < u64_mod = rw e at room in
            rw e (record {
              outstanding = omega (arith, b.outstanding, b.files, fits);
              while_live = ground (arith, b.while_live);
              files = omega (arith, b.files, fits);
              in_range = omega arith;
              one_report = rw e at sum;
            })
        | inr n ↦
            let fits : count < u64_mod = ground arith in
            let idle : live ≡ 0 = ground (arith, b.while_live) in
            rw n (record {
              outstanding = omega (arith, idle, fits);
              while_live = ground (arith, idle, fits);
              files = omega (arith, idle, fits);
              in_range = omega arith;
              one_report = rw n at sum;
            })
      ]

  cancel_found-SameBatch :
      (o : Option T.Token) (h : TransferHub F T) → SameBatch h (cancel_found o h)
  cancel_found-SameBatch none h = (refl, refl, refl, refl)
  cancel_found-SameBatch (some t) h = (refl, refl, refl, refl)

  cancel_file-SameBatch : (h : TransferHub F T) (id : ℕ) → SameBatch h (cancel_file id h)
  unfolding cancel_file
  cancel_file-SameBatch h id = cancel_found-SameBatch (NatMap.get h.file_cancels id) h

  tick-SameBatch :
      (h : TransferHub F T) (now id n : ℕ)
      → let (p, sent) = tick now id n h.state.progress in
        SameBatch h (with_progress h p) × IsQuiet sent
  unfolding tick
  tick-SameBatch h now id n =
      let p = h.state.progress in
      let same =
        update_same now id n (NatMap.get p.active id)
          (record p { bytes = (p.bytes + n) % u64_mod }) in
      elim (Bool-cases (leb 100 ((now - p.start) / 1000000 % u64_mod - p.last_emit))) [
        | inl e ↦ rw e ((refl, refl, same, refl), (refl, refl))
        | inr e ↦ rw e ((refl, refl, same, refl), (refl, refl))
      ]

  -- The end of a task adds one file to the counters, or to those skipped.
  settle_counts :
      (h : TransferHub F T) (kind : TransferKind) (id : ℕ) (message : Error → Text)
      (cancelled batch_cancelled : Bool) (ending : Ending)
      → settled_files h + 1 < u64_mod
      → let (h', sent) = settle kind id message cancelled batch_cancelled ending h in
        (settled_files h' + skips batch_cancelled ending ≡ settled_files h + 1)
        × (h'.state.outstanding ≡ h.state.outstanding)
        × (h'.state.is_open ≡ h.state.is_open)
        × (h'.state.total_files ≡ h.state.total_files)
        × IsQuiet sent
  unfolding settle file_done
  settle_counts h kind id message cancelled true unstarted room =
      (omega arith, refl, refl, refl, (refl, refl))
  settle_counts h kind id message cancelled false unstarted room =
      (omega arith, refl, refl, refl, (refl, refl))
  settle_counts h upload id message cancelled b (returned (ok done)) room =
      (omega arith, refl, refl, refl, (refl, refl))
  settle_counts h download id message cancelled b (returned (ok done)) room =
      (omega arith, refl, refl, refl, (refl, refl))
  settle_counts h kind id message true b (returned (err e)) room =
      (omega arith, refl, refl, refl, (refl, refl))
  settle_counts h kind id message false b (returned (err e)) room =
      (omega arith, refl, refl, refl, (refl, refl))

  task_done-IsBalanced :
      (h : TransferHub F T) (live skipped : ℕ) (es : List (Event F))
      → h.state.outstanding ≡ live + 1
      → h.state.is_open ≡ true
      → settled_files h + skipped + live ≡ h.state.total_files
      → h.state.total_files < u64_mod
      → started es ≡ ended es + 1
      → IsBalanced (task_done h).0 live skipped (es ++ (task_done h).1)
  unfolding task_done
  task_done-IsBalanced h live skipped es out op files room reports =
      let left : h.state.outstanding - 1 ≡ live = omega (arith, out) in
      elim (Bool-cases (live == 0)) [
        | inl e ↦
            rw (op, left, e)
              (record {
                outstanding = refl;
                while_live = ground (arith, e);
                files = files;
                in_range = room;
                one_report = omega (
                  arith,
                  started-append es (finished h.state ∷ []),
                  ended-append es (finished h.state ∷ []),
                  reports,
                );
              })
        | inr n ↦
            rw (op, left, n)
              (record {
                outstanding = refl;
                while_live = ground (arith, n, op);
                files = files;
                in_range = room;
                one_report =
                    omega (arith, ap started (append-nil es), ap ended (append-nil es), reports);
              })
      ]

  end_task-IsBalanced :
      (h : TransferHub F T) (live skipped : ℕ) (es : List (Event F)) (kind : TransferKind) (id : ℕ)
      (message : Error → Text) (cancelled batch_cancelled : Bool) (ending : Ending)
      → IsBalanced h (live + 1) skipped es
      → IsBalanced
          (end_task kind id message cancelled batch_cancelled ending h).0
          live
          (skipped + skips batch_cancelled ending)
          (es ++ (end_task kind id message cancelled batch_cancelled ending h).1)
  unfolding end_task unregister_file
  end_task-IsBalanced h live skipped es kind id message cancelled batch_cancelled ending b =
      let (h', sent) = settle kind id message cancelled batch_cancelled ending h in
      let (counts, out, op, total, quiet) =
        settle_counts h kind id message cancelled batch_cancelled ending
          (omega (arith, b.files, b.in_range)) in
      let was_open : h.state.is_open ≡ true = ground (arith, b.while_live) in
      let done =
        task_done-IsBalanced (unregister_file id h') live (skipped + skips batch_cancelled ending)
          (es ++ sent) (omega (arith, out, b.outstanding)) (op ∙ was_open)
          (omega (arith, counts, total, b.files)) (omega (arith, total, b.in_range))
          (omega (
            arith,
            quiet.0,
            quiet.1,
            started-append es sent,
            ended-append es sent,
            rw was_open at b.one_report,
          )) in
      subst
        (IsBalanced (task_done (unregister_file id h')).0 live
          (skipped + skips batch_cancelled ending))
        (append_assoc es sent (task_done (unregister_file id h')).1) done

  -- Over every order of the steps of the window and of the tasks, with fewer than 2^64 files in a batch: a
  -- batch has as many outstanding files as tasks are alive, and is open exactly while there is one;
  -- its files are those that were counted as uploaded, downloaded or failed, those that were
  -- skipped as the batch was cancelled before they began, and those alive; and every batch that was
  -- announced as started was reported as finished once, but the one that is open.
  pub Run-IsBalanced :
      {h : TransferHub F T} {live skipped : ℕ} {es : List (Event F)}
      → Run h live skipped es
      → IsBalanced h live skipped es
  unfolding register_file take_id cancel_all file_resume file_start
  Run-IsBalanced (begun now store) = new_hub-IsBalanced now store
  Run-IsBalanced (admitted {h} {live} {skipped} {es} now settings count bytes roster pos room r) =
      admit-IsBalanced h live skipped es now settings count bytes roster pos room (Run-IsBalanced r)
  Run-IsBalanced (registered {h} {live} {skipped} {es} id parent r) =
      silent h _ live skipped es (refl, refl, refl, refl) (Run-IsBalanced r)
  Run-IsBalanced (numbered {h} {live} {skipped} {es} r) =
      silent h _ live skipped es (refl, refl, refl, refl) (Run-IsBalanced r)
  Run-IsBalanced (file_cancelled {h} {live} {skipped} {es} id r) =
      silent h _ live skipped es (cancel_file-SameBatch h id) (Run-IsBalanced r)
  Run-IsBalanced (all_cancelled {h} {live} {skipped} {es} r) =
      silent h _ live skipped es (refl, refl, refl, refl) (Run-IsBalanced r)
  Run-IsBalanced (row_set {h} {live} {skipped} {es} now id kind name total done r) =
      silent h _ live skipped es (refl, refl, refl, refl) (Run-IsBalanced r)
  Run-IsBalanced (row_started {h} {live} {skipped} {es} now id kind name total r) =
      silent h _ live skipped es (refl, refl, refl, refl) (Run-IsBalanced r)
  Run-IsBalanced (ticked {h} {live} {skipped} {es} now id n r) =
      let (same, quiet) = tick-SameBatch h now id n in
      same_batch h _ live skipped es _ same quiet (Run-IsBalanced r)
  Run-IsBalanced
        (task_ended {h} {live} {skipped} {es} kind id message cancelled batch_cancelled ending r) =
      end_task-IsBalanced h live skipped es kind id message cancelled batch_cancelled ending
        (Run-IsBalanced r)
