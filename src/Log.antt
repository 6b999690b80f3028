-- ===== src/Log.antt =====
-- The package log/: the Logger that a program sets, the functions that hand on to it, and the default
-- logger over the standard one. What is written is a list of lines.
pub mod Written
use frpc.Base.{List, [], ◌∷◌, ◌++◌}
use frpc.Base.Bytes.{Bytes, text}

-- How a call ends: it returns, the process exits, or it panics with a text.
pub data After : Type 0 where
  returns : After
  exits : After
  panics : Bytes → After

-- The lines written, the last one last, and how the call ends.
abbrev pub Effect : Type 0
Effect = List Bytes → List Bytes × After

-- The interface Logger, over arguments `A`.
pub record Logger (A : Type 0) : Type 0 where
  pub debug : List A → Effect
  pub debugf : Bytes → List A → Effect
  pub info : List A → Effect
  pub infof : Bytes → List A → Effect
  pub warn : List A → Effect
  pub warnf : Bytes → List A → Effect
  pub error : List A → Effect
  pub errorf : Bytes → List A → Effect
  pub fatal : List A → Effect
  pub fatalf : Bytes → List A → Effect
  pub panic : List A → Effect
  pub panicf : Bytes → List A → Effect

-- fmt.Sprint and fmt.Sprintf; Sprint of one argument that is the list of all of them; and the colours
-- of fatih/color.
pub record Formats (A : Type 0) : Type 0 where
  pub sprint : List A → Bytes
  pub sprintf : Bytes → List A → Bytes
  pub sprint_slice : List A → Bytes
  pub green : Bytes → Bytes
  pub yellow : Bytes → Bytes
  pub red : Bytes → Bytes
  pub magenta : Bytes → Bytes

unfoldable pub header : Bytes → Bytes → Bytes
header level message = level ++ text ": " ++ message

-- l.Output, and what the function then does.
unfoldable pub output : Bytes → After → Effect
output line after written = (written ++ (line ∷ []), after)

-- Panic and Panicf of the standard logger.
unfoldable pub output_panic : Bytes → Effect
output_panic line written = (written ++ (line ∷ []), panics line)

-- defaultLogger. Panic hands its arguments to the standard logger as one argument, a slice.
unfoldable pub default_logger : {A : Type 0} → Formats A → Logger A
unfolding header output output_panic
default_logger f = record {
  debug = λ v. output (header (text "DEBUG") (f.sprint v)) returns;
  debugf = λ format v. output (header (text "DEBUG") (f.sprintf format v)) returns;
  info = λ v. output (header (f.green (text "INFO ")) (f.sprint v)) returns;
  infof = λ format v. output (header (f.green (text "INFO ")) (f.sprintf format v)) returns;
  warn = λ v. output (header (f.yellow (text "WARN ")) (f.sprint v)) returns;
  warnf = λ format v. output (header (f.yellow (text "WARN ")) (f.sprintf format v)) returns;
  error = λ v. output (header (f.red (text "ERROR")) (f.sprint v)) returns;
  errorf = λ format v. output (header (f.red (text "ERROR")) (f.sprintf format v)) returns;
  fatal = λ v. output (header (f.magenta (text "FATAL")) (f.sprint v)) exits;
  fatalf = λ format v. output (header (f.magenta (text "FATAL")) (f.sprintf format v)) exits;
  panic = λ v. output_panic (f.sprint_slice v);
  panicf = λ format v. output_panic (f.sprintf format v);
}

-- A call of one of the functions of the package, or of SetLogger.
pub data Request (A : Type 0) : Type 0 where
  debugs infos warns errors fatals panics_with : List A → Request A
  debugs_f infos_f warns_f errors_f fatals_f panics_f : Bytes → List A → Request A
  sets : Logger A → Request A

-- The variable `l`, and what was written.
pub record Logging (A : Type 0) : Type 0 where
  pub logger : Logger A
  pub written : List Bytes

module _ {A : Type 0} where
  unfoldable pub with_effect : Effect → Logging A → Logging A × After
  with_effect effect s =
      let (written, after) = effect s.written in (record s { written = written }, after)

  unfoldable pub set_logger : Logger A → Logging A → Logging A
  set_logger logger s = record s { logger = logger }

  -- Debug to Panicf of log/logger.go.
  unfoldable pub log : Request A → Logging A → Logging A × After
  unfolding with_effect set_logger
  log (debugs v) s = with_effect (s.logger.debug v) s
  log (debugs_f format v) s = with_effect (s.logger.debugf format v) s
  log (infos v) s = with_effect (s.logger.info v) s
  log (infos_f format v) s = with_effect (s.logger.infof format v) s
  log (warns v) s = with_effect (s.logger.warn v) s
  log (warns_f format v) s = with_effect (s.logger.warnf format v) s
  log (errors v) s = with_effect (s.logger.error v) s
  log (errors_f format v) s = with_effect (s.logger.errorf format v) s
  log (fatals v) s = with_effect (s.logger.fatal v) s
  log (fatals_f format v) s = with_effect (s.logger.fatalf format v) s
  log (panics_with v) s = with_effect (s.logger.panic v) s
  log (panics_f format v) s = with_effect (s.logger.panicf format v) s
  log (sets logger) s = (set_logger logger s, returns)

  -- Requests one after the other, up to one that does not return.
  unfoldable pub log_all : List (Request A) → Logging A → Logging A × After
  unfolding log
  log_all [] s = (s, returns)
  log_all (r ∷ rs) s =
      let (s', after) = log r s in
      let rest = log_all rs s' in
      elim after [ returns ↦ rest | exits ↦ (s', exits) | panics e ↦ (s', panics e) ]
