-- ===== src/Audit/FileSink.antt =====
-- internal/audit/file_sink.go. encoding/json and the open file are parameters; the calls of several
-- goroutines are a sequence, since the part of `Notify` that touches the file, and `Close`, hold `mu`.
pub mod Journal
mod Tests
use Prim.Native.String.{◌++◌ as concat}
use metrics_alerting_service.Prelude.{
  String, Bool, true, false, Option, none, some, List, [], ◌∷◌, if◌then◌else◌,
}
use metrics_alerting_service.Errors.{Error, Result, err, ok, sink_closed}
use metrics_alerting_service.Audit.{Event}

-- the file behind `*os.File`, and json.Marshal
pub record Disk (FileData : Type 0) : Type 0 where
  pub marshal : Event → Result String
  pub write : String → FileData → Option Error × FileData
  pub close_file : FileData → Option Error × FileData

pub record FileSink (FileData : Type 0) : Type 0 where
  pub file : FileData
  pub closed : Bool

-- a call, with what `ctx.Err()` returns
pub data Call : Type 0 where
  notifies : Option Error → Event → Call
  closes : Call

module _ {FileData : Type 0} (disk : Disk FileData) where
  -- the part of `Notify` after `mu.Lock()`
  write_data : String → FileSink FileData → Option Error × FileSink FileData
  write_data data_ s =
      if s.closed
      then (some sink_closed, s)
      else let (failure, file) = disk.write data_ s.file in
        (failure, record { file = file; closed = false })

  notify_data : Result String → FileSink FileData → Option Error × FileSink FileData
  unfolding write_data
  notify_data (err e) s = (some e, s)
  notify_data (ok text) s = write_data (concat text "\n") s

  unfoldable pub notify :
      Option Error → Event → FileSink FileData → Option Error × FileSink FileData
  unfolding notify_data
  notify (some e) ev s = (some e, s)
  notify none ev s = notify_data (disk.marshal ev) s

  unfoldable pub close : FileSink FileData → Option Error × FileSink FileData
  close s =
      if s.closed
      then (none, s)
      else let (failure, file) = disk.close_file s.file in
        (failure, record { file = file; closed = true })

  unfoldable pub call : Call → FileSink FileData → Option Error × FileSink FileData
  unfolding notify close
  call (notifies ctx_err ev) s = notify ctx_err ev s
  call closes s = close s

  -- the calls one after the other, and what each returns
  unfoldable pub run : List Call → FileSink FileData → List (Option Error) × FileSink FileData
  unfolding call
  run [] s = ([], s)
  run (c ∷ cs) s =
      let (result, next) = call c s in let (results, last) = run cs next in (result ∷ results, last)
