-- ===== src/Audit/FileSink/Tests.antt =====
-- A sink that takes an event, fails to write the next, is closed and refuses the third.
use metrics_alerting_service.Prelude.{
  String, ◌≡◌, refl, true, false, Option, none, some, List, [], ◌∷◌, ◌++◌,
}
use metrics_alerting_service.Errors.{Error, ok, Bytes, other, sink_closed}
use metrics_alerting_service.Audit.{Event}
use metrics_alerting_service.Audit.FileSink.{
  Disk, FileSink, Call, notifies, closes, notify, notify_data, write_data, close, call, run,
}
use metrics_alerting_service.Audit.FileSink.Journal.{
  Appends, IsAppendOnly, IsJournal, run-IsJournal,
}

-- a line break at the end of each line, and two bytes before it
abbrev bytes : String → Bytes
bytes text = 123 ∷ 125 ∷ 10 ∷ []

-- a disk with room for one line and a byte
abbrev append_line : String → Bytes → Option Error × Bytes
append_line text [] = (none, bytes text)
append_line text (b ∷ bs) = (some (other "no space"), b ∷ bs ++ 123 ∷ [])

abbrev disk : Disk Bytes
disk = record { marshal = λ ev. ok "{}"; write = append_line; close_file = λ f. (none, f) }

abbrev event : Event
event = record { timestamp = 0; metrics = "Alloc" ∷ []; ip_address = "10.0.0.1" }

abbrev sink : FileSink Bytes
sink = record { file = []; closed = false }

abbrev calls : List Call
calls = notifies none event ∷ notifies none event ∷ closes ∷ notifies none event ∷ []

calls-run : run disk calls sink ≡ (
  none ∷ some (other "no space") ∷ none ∷ some sink_closed ∷ [],
  record { file = 123 ∷ 125 ∷ 10 ∷ 123 ∷ []; closed = true },
)
unfolding run call notify notify_data write_data close
calls-run = refl

append_line-Appends :
    (text : String) (f : Bytes)
    → Appends disk (λ g. g) bytes f (append_line text f).1 (bytes text) (append_line text f).0
append_line-Appends text [] = refl
append_line-Appends text (b ∷ bs) = (123 ∷ [], 125 ∷ 10 ∷ [], refl, refl)

disk-IsAppendOnly : IsAppendOnly disk (λ f. f) bytes
disk-IsAppendOnly = record { writes = λ text f. append_line-Appends text f; keeps = λ f. refl }

run-IsJournal_example :
    (xs : Bytes) × IsJournal disk (λ f. f) bytes false calls (run disk calls sink).0 xs
    × ((run disk calls sink).1.file ≡ [] ++ xs)
run-IsJournal_example = run-IsJournal disk (λ f. f) bytes disk-IsAppendOnly calls sink
