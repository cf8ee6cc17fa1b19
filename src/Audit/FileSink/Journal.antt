-- ===== src/Audit/FileSink/Journal.antt =====
-- What stands in the audit file after any calls of the sink. `read` gives the bytes of the file.
use Prim.Native.String.{◌++◌ as concat}
use mathlib.Core.List.{append_assoc, append-nil}
use metrics_alerting_service.Prelude.{
  String, Bool, true, false, Option, none, some, List, [], ◌∷◌, ◌++◌, ◌≡◌, refl, sym, ◌∙◌, ap,
}
use metrics_alerting_service.Errors.{Error, Result, err, ok, Bytes, sink_closed}
use metrics_alerting_service.Audit.{Event}
use metrics_alerting_service.Audit.FileSink.{
  Disk, FileSink, Call, notifies, closes, write_data, notify_data, notify, close, call, run,
}

module _ {FileData : Type 0} (disk : Disk FileData) (read : FileData → Bytes)
    (bytes : String → Bytes) where
  -- What one write leaves: all of its data if it returns nil, the first of them if it fails.
  abbrev pub Appends : Bytes → Bytes → Bytes → Option Error → Type 0
  Appends old new data_ none = new ≡ old ++ data_
  Appends old new data_ (some e) =
      (part : Bytes) × (rest : Bytes) × (data_ ≡ part ++ rest) × (new ≡ old ++ part)

  -- The file is open for appending, and closing it changes nothing in it.
  pub record IsAppendOnly : Type 0 where
    pub writes :
        (text : String) (f : FileData)
        → Appends (read f) (read (disk.write text f).1) (bytes text) (disk.write text f).0
    pub keeps : (f : FileData) → read (disk.close_file f).1 ≡ read f

  -- What a call adds to the file, by whether the sink is closed before it, its result, and whether the
  -- sink is closed after it.
  pub data Adds : Bool → Call → Option Error → Bytes → Bool → Type 0 where
    whole_line :
        (ev : Event) (text : String)
        → disk.marshal ev ≡ ok text
        → Adds false (notifies none ev) none (bytes (concat text "\n")) false
    part_of_line :
        (ev : Event) (text : String) (e : Error) (part rest : Bytes)
        → disk.marshal ev ≡ ok text
        → bytes (concat text "\n") ≡ part ++ rest
        → Adds false (notifies none ev) (some e) part false
    refused :
        (b : Bool) (x : Option Error) (ev : Event) (e : Error)
        → Adds b (notifies x ev) (some e) [] b
    shut : (b : Bool) (r : Option Error) → Adds b closes r [] true

  -- What a sequence of calls adds, from an open or a closed sink.
  pub data IsJournal : Bool → List Call → List (Option Error) → Bytes → Type 0 where
    empty : (b : Bool) → IsJournal b [] [] []
    entry :
        (b b' : Bool) (c : Call) (r : Option Error) (xs : Bytes) (cs : List Call)
        (rs : List (Option Error)) (ys : Bytes)
        → Adds b c r xs b'
        → IsJournal b' cs rs ys
        → IsJournal b (c ∷ cs) (r ∷ rs) (xs ++ ys)

  Added : FileSink FileData → Call → Option Error × FileSink FileData → Type 0
  Added s c (r, t) =
      (xs : Bytes) × Adds s.closed c r xs t.closed × (read t.file ≡ read s.file ++ xs)

  module _ (appends : IsAppendOnly) where
    unchanged : (f : FileData) → read f ≡ read f ++ []
    unchanged f = sym (append-nil (read f))

    wrote-Added :
        (f : FileData) (ev : Event) (text : String)
        → disk.marshal ev ≡ ok text
        → (w : Option Error × FileData) → Appends (read f) (read w.1) (bytes (concat text "\n")) w.0
        → Added
            (record { file = f; closed = false })
            (notifies none ev)
            (w.0, record { file = w.1; closed = false })
    unfolding Added
    wrote-Added f ev text m (none, g) a = (bytes (concat text "\n"), whole_line ev text m, a)
    wrote-Added f ev text m (some e, g) (part, rest, p, a) =
        (part, part_of_line ev text e part rest m p, a)

    write_data-Added :
        (b : Bool) (f : FileData) (ev : Event) (text : String)
        → disk.marshal ev ≡ ok text
        → Added
            (record { file = f; closed = b })
            (notifies none ev)
            (write_data disk (concat text "\n") (record { file = f; closed = b }))
    unfolding Added write_data
    write_data-Added true f ev text m = ([], refused true none ev sink_closed, unchanged f)
    write_data-Added false f ev text m =
        wrote-Added f ev text m (disk.write (concat text "\n") f)
          (appends.writes (concat text "\n") f)

    notify_data-Added :
        (s : FileSink FileData) (ev : Event) (r : Result String)
        → disk.marshal ev ≡ r
        → Added s (notifies none ev) (notify_data disk r s)
    unfolding Added notify_data
    notify_data-Added s ev (err e) m = ([], refused s.closed none ev e, unchanged s.file)
    notify_data-Added s ev (ok text) m = write_data-Added s.closed s.file ev text m

    close-Added :
        (b : Bool) (f : FileData)
        → Added
            (record { file = f; closed = b })
            closes
            (close disk (record { file = f; closed = b }))
    unfolding Added close
    close-Added true f = ([], shut true none, unchanged f)
    close-Added false f = ([], shut false (disk.close_file f).0, appends.keeps f ∙ unchanged f)

    call-Added : (s : FileSink FileData) (c : Call) → Added s c (call disk c s)
    unfolding Added call notify
    call-Added s (notifies (some e) ev) = ([], refused s.closed (some e) ev e, unchanged s.file)
    call-Added s (notifies none ev) = notify_data-Added s ev (disk.marshal ev) refl
    call-Added s closes = close-Added s.closed s.file

    -- If a write appends its data, or the first of them when it fails, then the calls of a sink leave in the
    -- file what was there and, in the order of the calls, the whole line of each event that `Notify` has
    -- accepted and a first part of each line whose write failed; after a `Close` no event is accepted and
    -- nothing is added.
    pub run-IsJournal :
        (cs : List Call) (s : FileSink FileData)
        → (xs : Bytes) × IsJournal s.closed cs (run disk cs s).0 xs
          × (read (run disk cs s).1.file ≡ read s.file ++ xs)
    unfolding run Added
    run-IsJournal [] s = ([], empty s.closed, unchanged s.file)
    run-IsJournal (c ∷ cs) s =
        let (xs, a, p) = call-Added s c in
        let t = (call disk c s).1 in
        let (ys, j, q) = run-IsJournal cs t in
        (
          xs ++ ys,
          entry s.closed t.closed c (call disk c s).0 xs cs (run disk cs t).0 ys a j,
          q ∙ ap (λ zs. zs ++ ys) p ∙ append_assoc (read s.file) xs ys,
        )
