-- ===== src/Log/Written.antt =====
-- What the default logger of log/default_logger.go writes.
use frpc.Base.{◌≡◌, refl, sym, ap, ◌∙◌, List, [], ◌∷◌, ◌++◌, append-nil, append_assoc}
use frpc.Base.Bytes.{Bytes, text}
use frpc.Log.{
  After, returns, exits, panics, Formats, Request, Logging, header, output, output_panic,
  default_logger, with_effect, log, log_all, debugs, infos, warns, errors, fatals, panics_with,
  debugs_f, infos_f, warns_f, errors_f, fatals_f, panics_f, sets,
}

module _ {A : Type 0} (f : Formats A) where
  -- The line that a request is to write, and how it is to end, written down from the names of the
  -- levels.
  abbrev pub line_of : Request A → Bytes
  line_of (debugs v) = text "DEBUG" ++ text ": " ++ f.sprint v
  line_of (debugs_f format v) = text "DEBUG" ++ text ": " ++ f.sprintf format v
  line_of (infos v) = f.green (text "INFO ") ++ text ": " ++ f.sprint v
  line_of (infos_f format v) = f.green (text "INFO ") ++ text ": " ++ f.sprintf format v
  line_of (warns v) = f.yellow (text "WARN ") ++ text ": " ++ f.sprint v
  line_of (warns_f format v) = f.yellow (text "WARN ") ++ text ": " ++ f.sprintf format v
  line_of (errors v) = f.red (text "ERROR") ++ text ": " ++ f.sprint v
  line_of (errors_f format v) = f.red (text "ERROR") ++ text ": " ++ f.sprintf format v
  line_of (fatals v) = f.magenta (text "FATAL") ++ text ": " ++ f.sprint v
  line_of (fatals_f format v) = f.magenta (text "FATAL") ++ text ": " ++ f.sprintf format v
  line_of (panics_with v) = f.sprint_slice v
  line_of (panics_f format v) = f.sprintf format v
  line_of (sets logger) = []

  -- How the request is to end.
  abbrev pub end_of : Request A → After
  end_of (fatals v) = exits
  end_of (fatals_f format v) = exits
  end_of (panics_with v) = panics (f.sprint_slice v)
  end_of (panics_f format v) = panics (f.sprintf format v)
  end_of r = returns

  abbrev pub IsSetter : Request A → Type 0
  IsSetter (sets logger) = Unit {0}
  IsSetter r = ⊥

  abbrev pub NoSetter : List (Request A) → Type 0
  NoSetter [] = Unit {0}
  NoSetter (r ∷ rs) = ¬ IsSetter r × NoSetter rs

  -- A line for each request, up to the first one that does not return.
  abbrev pub lines : List (Request A) → List Bytes
  lines [] = []
  lines (r ∷ rs) =
      let rest = lines rs in
      line_of r ∷ elim (end_of r) [ returns ↦ rest | exits ↦ [] | panics e ↦ [] ]

  -- How the first one that does not return ends.
  abbrev pub outcome : List (Request A) → After
  outcome [] = returns
  outcome (r ∷ rs) =
      let rest = outcome rs in
      elim (end_of r) [ returns ↦ rest | exits ↦ exits | panics e ↦ panics e ]

  one_request :
      (r : Request A) (w : List Bytes)
      → ¬ IsSetter r
      → log r (record { logger = default_logger f; written = w })
        ≡ (record { logger = default_logger f; written = w ++ (line_of r ∷ []) }, end_of r)
  unfolding log default_logger header output output_panic with_effect
  one_request (debugs v) w n = refl
  one_request (debugs_f format v) w n = refl
  one_request (infos v) w n = refl
  one_request (infos_f format v) w n = refl
  one_request (warns v) w n = refl
  one_request (warns_f format v) w n = refl
  one_request (errors v) w n = refl
  one_request (errors_f format v) w n = refl
  one_request (fatals v) w n = refl
  one_request (fatals_f format v) w n = refl
  one_request (panics_with v) w n = refl
  one_request (panics_f format v) w n = refl
  one_request (sets logger) w n = absurd (n tt)

  -- Whatever a program logs through the default logger, there is a line for each request up to the
  -- first that does not return, and that one decides how the program goes on. Condition: SetLogger is
  -- not called.
  pub log_all-lines :
      (rs : List (Request A)) (w : List Bytes)
      → NoSetter rs
      → log_all rs (record { logger = default_logger f; written = w })
        ≡ (record { logger = default_logger f; written = w ++ lines rs }, outcome rs)
  unfolding log_all
  log_all-lines [] w n =
      ap (λ x. (record { logger = default_logger f; written = x }, returns)) (sym (append-nil w))
  log_all-lines (r ∷ rs) w n =
      ap
        (λ (x : Logging A × After). elim x.1 as (λ _. Logging A × After) [
          | returns ↦ log_all rs x.0
          | exits ↦ (x.0, exits)
          | panics e ↦ (x.0, panics e)
        ])
        (one_request r w n.0)
      ∙ by_end (end_of r) (log_all-lines rs (w ++ (line_of r ∷ [])) n.1)
    where
      by_end :
          (after : After)
          → log_all rs (record { logger = default_logger f; written = w ++ (line_of r ∷ []) }) ≡ (
            record { logger = default_logger f; written = (w ++ (line_of r ∷ [])) ++ lines rs },
            outcome rs,
          )
          → (elim after as (λ _. Logging A × After) [
            | returns ↦
                log_all rs (record { logger = default_logger f; written = w ++ (line_of r ∷ []) })
            | exits ↦ (record { logger = default_logger f; written = w ++ (line_of r ∷ []) }, exits)
            | panics e ↦
                (record { logger = default_logger f; written = w ++ (line_of r ∷ []) }, panics e)
          ])
            ≡ (
              record {
                logger = default_logger f;
                written =
                    w
                    ++ (line_of r ∷ elim after [ returns ↦ lines rs | exits ↦ [] | panics e ↦ [] ]);
              },
              elim after [ returns ↦ outcome rs | exits ↦ exits | panics e ↦ panics e ],
            )
      by_end returns ih =
          ih
          ∙ ap (λ x. (record { logger = default_logger f; written = x }, outcome rs))
              (append_assoc w (line_of r ∷ []) (lines rs))
      by_end exits ih = refl
      by_end (panics e) ih = refl
