-- ===== src/Logging.antt =====
-- libsrc/logger.cpp and setup_log_facility of libsrc/util.cpp: where the log goes, and its lines.
-- `opens` says which files QFile can open, and the texts of the current time are given.
use digital_rooster_gui.Base.{
  ◌≡◌, refl, ap, ◌⊎◌, inl, inr, String, Bool, true, false, List, [], ◌∷◌, Option, none, some,
  append, if◌then◌else◌, Bool-cases,
}

pub data Sink : Type 0 where
  standard_output : Sink
  file : String → Sink

-- `logfile` is the open file, `none` where it is not open; `installed` is whether the handler is.
pub record Logger : Type 0 where
  pub logfile : Option Sink
  pub installed : Bool

unfoldable pub setup_logger_stdout : Logger → Logger
setup_logger_stdout l = record { logfile = some standard_output; installed = true }

-- The flag is whether std::system_error is thrown.
unfoldable pub setup_logger_file : (String → Bool) → Logger → String → Logger × Bool
setup_logger_file opens l filename =
    if opens filename
    then (record { logfile = some (file filename); installed = true }, false)
    else (record l { logfile = none }, true)

-- `to_stdout` and `filename` are the options of the command line.
unfoldable pub setup_log_facility : (String → Bool) → Bool → String → Logger → Logger
setup_log_facility opens to_stdout filename l =
    let (l', thrown) = setup_logger_file opens l filename in
    if to_stdout then setup_logger_stdout l else if thrown then setup_logger_stdout l' else l'

pub data MsgType : Type 0 where
  info_msg debug_msg warning_msg critical_msg fatal_msg : MsgType

unfoldable pub tag : MsgType → String
tag info_msg = "INF\t"
tag debug_msg = "DBG\t"
tag warning_msg = "WRN\t"
tag critical_msg = "CRT\t"
tag fatal_msg = "FAT\t"

pub record Message : Type 0 where
  pub date_time : String
  pub time : String
  pub type : MsgType
  pub category : String
  pub msg : String

unfoldable pub line : Message → String
unfolding tag
line m = append m.time (append (tag m.type) (append m.category (append "\t" (append m.msg "\n"))))

unfoldable pub banner : Message → String
banner m = append "\n ======= " (append m.date_time " =======\n")

-- messageHandler: whether it is initialized, and the text that it writes.
unfoldable pub message_handler : Bool → Message → Bool × String
message_handler initialized m =
    if initialized then (true, line m) else (true, append (banner m) (line m))

-- The messages of a run.
unfoldable pub messages : Bool → List Message → List String
messages initialized [] = []
messages initialized (m ∷ ms) =
    let (initialized', text) = message_handler initialized m in text ∷ messages initialized' ms

-- The log is always set up: it goes to the standard output, or to the file where that can be opened
-- and the standard output is not asked for.
pub setup_outcome :
    (opens : String → Bool) (to_stdout : Bool) (filename : String) (l : Logger)
    → let l' = setup_log_facility opens to_stdout filename l in
      (l'.installed ≡ true)
      × ((l'.logfile ≡ some standard_output)
          ⊎ ((to_stdout ≡ false) × (opens filename ≡ true) × (l'.logfile ≡ some (file filename))))
unfolding setup_log_facility setup_logger_file setup_logger_stdout
setup_outcome opens true filename l = (refl, inl refl)
setup_outcome opens false filename l = elim (Bool-cases (opens filename)) [
  | inl e ↦ (rw e refl, inr (refl, e, rw e refl))
  | inr e ↦ (rw e refl, inl (rw e refl))
]

abbrev pub lines : List Message → List String
lines [] = []
lines (m ∷ ms) = line m ∷ lines ms

later_lines : (ms : List Message) → messages true ms ≡ lines ms
unfolding messages message_handler
later_lines [] = refl
later_lines (m ∷ ms) = ap (λ ls. line m ∷ ls) (later_lines ms)

-- The banner stands before the first message of a run, and before no other.
pub banner_once :
    (m : Message) (ms : List Message)
    → messages false (m ∷ ms) ≡ append (banner m) (line m) ∷ lines ms
unfolding messages message_handler
banner_once m ms = ap (λ ls. append (banner m) (line m) ∷ ls) (later_lines ms)
