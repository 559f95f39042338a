-- ===== src/Transfer/Progress.antt =====
-- `Progress` of src/worker.rs: the counters of a batch of transfers and the rows of its files. Each
-- method is one step, as each field is atomic or behind a lock. The clock is an argument, in
-- nanoseconds. An `Event` that a method sends is part of its result.
use rabbit_storage_explorer.Base.{
  ℕ, ◌+◌, ◌-◌, ◌/◌, ◌%◌, Bool, true, false, Option, none, some, List, [], ◌∷◌, leb, u64_mod,
  if◌then◌else◌, Text,
}
use rabbit_storage_explorer.Base.NatMap
use rabbit_storage_explorer.Base.NatMap.{NatMap}

pub data TransferKind : Type 0 where
  upload download : TransferKind

-- The f64 numbers of a speed.
pub record Float : Type 1 where
  pub F64 : Type 0
  pub zero : F64
  pub is_zero : F64 → Bool
  -- so many bytes in so many nanoseconds, in bytes a second
  pub per_second : ℕ → ℕ → F64
  pub average : F64 → F64 → F64

pub record FileTrack (F : Float) : Type 0 where
  pub kind : TransferKind
  pub name : Text
  pub done : ℕ
  pub total : ℕ
  pub speed_bps : F.F64
  pub window_start : ℕ
  pub window_bytes : ℕ

pub record FileProgress (F : Float) : Type 0 where
  pub id : ℕ
  pub name : Text
  pub kind : TransferKind
  pub done : ℕ
  pub total : ℕ
  pub speed_bps : F.F64

pub data Event (F : Float) : Type 0 where
  transfer_progress : ℕ → ℕ → ℕ → List (FileProgress F) → Option (ℕ × Bool) → Event F
  transfer_started : ℕ → ℕ → List (FileProgress F) → Event F
  transfer_extended : ℕ → ℕ → List (FileProgress F) → Event F
  transfer_finished : ℕ → ℕ → ℕ → List Text → Event F
  toast : Text → Event F

-- `last_emit` in milliseconds since `start`.
pub record Progress (F : Float) : Type 0 where
  pub uploaded : ℕ
  pub downloaded : ℕ
  pub failed : ℕ
  pub bytes : ℕ
  pub start : ℕ
  pub last_emit : ℕ
  pub active : NatMap (FileTrack F)

module _ (F : Float) where
  unfoldable pub new : ℕ → Progress F
  new now = record {
    uploaded = 0;
    downloaded = 0;
    failed = 0;
    bytes = 0;
    start = now;
    last_emit = 0;
    active = [];
  }

module _ {F : Float} where
  unfoldable pub done_files : Progress F → ℕ
  done_files p = (p.uploaded + p.downloaded) % u64_mod

  abbrev done_of : Option (FileTrack F) → Option ℕ
  done_of none = none
  done_of (some t) = some t.done

  unfoldable pub bytes_for : Progress F → ℕ → Option ℕ
  bytes_for p id = done_of (NatMap.get p.active id)

  abbrev track : TransferKind → Text → ℕ → ℕ → ℕ → FileTrack F
  track kind name total already_done now = record {
    kind = kind;
    name = name;
    done = already_done;
    total = total;
    speed_bps = F.zero;
    window_start = now;
    window_bytes = 0;
  }

  unfoldable pub file_resume : ℕ → ℕ → TransferKind → Text → ℕ → ℕ → Progress F → Progress F
  file_resume now id kind name total already_done p = record p {
    active = NatMap.insert p.active id (track kind name total already_done now);
  }

  unfoldable pub file_start : ℕ → ℕ → TransferKind → Text → ℕ → Progress F → Progress F
  file_start now id kind name total p = record p {
    active = NatMap.insert p.active id (track kind name total 0 now);
  }

  -- `sort_by_key`, which is stable.
  unfoldable pub insert_row : FileProgress F → List (FileProgress F) → List (FileProgress F)
  insert_row x [] = x ∷ []
  insert_row x (y ∷ ys) =
      let rest = insert_row x ys in if leb x.id y.id then x ∷ y ∷ ys else y ∷ rest

  abbrev pub row : ℕ → FileTrack F → FileProgress F
  row id t = record {
    id = id;
    name = t.name;
    kind = t.kind;
    done = t.done;
    total = t.total;
    speed_bps = t.speed_bps;
  }

  unfoldable pub rows : NatMap (FileTrack F) → List (FileProgress F)
  unfolding insert_row
  rows [] = []
  rows ((id, t) ∷ m) = insert_row (row id t) (rows m)

  unfoldable pub progress_snapshot : Progress F → List (FileProgress F)
  unfolding rows
  progress_snapshot p = rows p.active

  -- The counter that a file adds to.
  abbrev pub counted : TransferKind → Bool → Progress F → Progress F
  counted upload true p = record p { uploaded = (p.uploaded + 1) % u64_mod }
  counted download true p = record p { downloaded = (p.downloaded + 1) % u64_mod }
  counted kind false p = record p { failed = (p.failed + 1) % u64_mod }

  abbrev report : Option (ℕ × Bool) → Progress F → Event F
  report finished p =
      transfer_progress (done_files p) p.failed p.bytes (progress_snapshot p) finished

  unfoldable pub file_done : ℕ → TransferKind → Bool → Progress F → Progress F × Event F
  unfolding done_files progress_snapshot
  file_done id kind fine p =
      let p' = counted kind fine (record p { active = NatMap.remove p.active id }) in
      (p', report (some (id, fine)) p')

  -- The row of a file after `n` bytes: its speed is set once in a second.
  unfoldable pub ticked : ℕ → ℕ → FileTrack F → FileTrack F
  ticked now n t =
      let window = (t.window_bytes + n) % u64_mod in
      let elapsed = now - t.window_start in
      let instant = F.per_second window elapsed in
      let moved : FileTrack F = record t { done = (t.done + n) % u64_mod; window_bytes = window } in
      if leb 1000000000 elapsed
      then record moved {
        speed_bps = if F.is_zero t.speed_bps then instant else F.average t.speed_bps instant;
        window_start = now;
        window_bytes = 0;
      }
      else moved

  abbrev pub update : ℕ → ℕ → ℕ → Option (FileTrack F) → Progress F → Progress F
  update now id n none p = p
  update now id n (some t) p = record p { active = NatMap.insert p.active id (ticked now n t) }

  -- At most ten events in a second.
  unfoldable pub tick : ℕ → ℕ → ℕ → Progress F → Progress F × List (Event F)
  unfolding ticked done_files progress_snapshot
  tick now id n p =
      let p' =
        update now id n (NatMap.get p.active id) (record p { bytes = (p.bytes + n) % u64_mod }) in
      let ms = (now - p.start) / 1000000 % u64_mod in
      let emitted : Progress F = record p' { last_emit = ms } in
      if leb 100 (ms - p.last_emit) then (emitted, report none emitted ∷ []) else (p', [])
