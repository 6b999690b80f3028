-- ===== src/Registry/Watch/Rounds.antt =====
-- What the loop `watch` of registry/discovery_etcd.go makes of errors and of channels that close.
use frpc.Base.{
  ℕ, zero, suc, ◌^◌, ◌≡◌, refl, sym, ap, ◌∙◌, List, [], ◌∷◌, ◌++◌, Option, none, some, map, arith,
  ltb, length, if◌then◌else◌,
}
use frpc.Base.Bytes.{Bytes}
use frpc.Registry.{Pair, Discovery, change, next_pause}
use frpc.Registry.Watch.{
  Retries, forever, limited, channel, given_up, try_watch, Event, changed, ended, again, waiting,
  read_changes, watch,
}

-- The pause after the failure of this number, in seconds.
abbrev pub pause_of : ℕ → ℕ
pause_of i = if ltb i 5 then 2 ^ i else 30

abbrev pub pauses_of : ℕ → ℕ → List ℕ
pauses_of i zero = []
pauses_of i (suc n) = pause_of i ∷ pauses_of (suc i) n

-- The pause that is kept before the failure of this number.
abbrev before : ℕ → ℕ
before zero = 0
before (suc i) = pause_of i

next_pause-before : (i : ℕ) → next_pause (before i) ≡ pause_of i
unfolding next_pause
next_pause-before zero = refl
next_pause-before (suc zero) = refl
next_pause-before (suc (suc zero)) = refl
next_pause-before (suc (suc (suc zero))) = refl
next_pause-before (suc (suc (suc (suc zero)))) = refl
next_pause-before (suc (suc (suc (suc (suc zero))))) = refl
next_pause-before (suc (suc (suc (suc (suc (suc i)))))) = ground arith

try_watch_from :
    (i : ℕ) (last : Option Bytes) (errors : List Bytes) (results : List (Option Bytes))
    → try_watch forever (before i) last (map some errors ++ (none ∷ results))
      ≡ (pauses_of i (length errors), channel)
unfolding try_watch
try_watch_from i last [] results = refl
try_watch_from i last (e ∷ errors) results =
    rw (next_pause-before i)
      (ap (λ r. (pause_of i ∷ r.0, r.1)) (try_watch_from (suc i) (some e) errors results))

-- With a limit, every try may fail.
try_watch_limited_from :
    (i : ℕ) (last : Option Bytes) (errors : List Bytes) (e : Bytes)
    → try_watch (limited (suc (length errors))) (before i) last (map some (errors ++ (e ∷ [])))
      ≡ (pauses_of i (suc (length errors)), given_up e)
unfolding try_watch
try_watch_limited_from i last [] e = rw (next_pause-before i) refl
try_watch_limited_from i last (x ∷ errors) e =
    rw (next_pause-before i)
      (ap (λ r. (pause_of i ∷ r.0, r.1)) (try_watch_limited_from (suc i) (some x) errors e))

-- The pauses between failing tries of WatchTree are 1, 2, 4, 8 and 16 seconds and then always 30;
-- without a limit the loop goes on to the first success, and with a limit it gives up with the
-- last error after just that many tries.
pub try_watch-pauses_of :
    (errors : List Bytes) (e : Bytes) (results : List (Option Bytes))
    → (try_watch forever 0 none (map some errors ++ (none ∷ results))
        ≡ (pauses_of 0 (length errors), channel))
      × (try_watch (limited (suc (length errors))) 0 none (map some (errors ++ (e ∷ [])))
          ≡ (pauses_of 0 (suc (length errors)), given_up e))
try_watch-pauses_of errors e results =
    (try_watch_from 0 none errors results, try_watch_limited_from 0 none errors e)

-- A round of failures, a channel, changes, and the end of the channel.
pub record Round : Type 0 where
  pub failures : List Bytes
  pub changes : List (List Pair)

abbrev pub as_round : Round → List (Option Bytes) × List Event
as_round r = (map some r.failures ++ (none ∷ []), map changed r.changes ++ (ended ∷ []))

abbrev pub all_changes : List Round → List (List Pair)
all_changes [] = []
all_changes (r ∷ rounds) = r.changes ++ all_changes rounds

-- The changes, one after the other.
abbrev pub apply_changes : List (List Pair) → Discovery → Discovery
apply_changes [] d = d
apply_changes (kv ∷ changes) d = apply_changes changes (change kv d)

apply_changes-append :
    (a b : List (List Pair)) (d : Discovery)
    → apply_changes (a ++ b) d ≡ apply_changes b (apply_changes a d)
apply_changes-append [] b d = refl
apply_changes-append (kv ∷ a) b d = apply_changes-append a b (change kv d)

read_changes-apply_changes :
    (changes : List (List Pair)) (d : Discovery)
    → read_changes (map changed changes ++ (ended ∷ [])) d ≡ (apply_changes changes d, again)
unfolding read_changes
read_changes-apply_changes [] d = refl
read_changes-apply_changes (kv ∷ changes) d = read_changes-apply_changes changes (change kv d)

watch-again :
    (retries : Retries) (results : List (Option Bytes)) (events : List Event)
    (rounds : List (List (Option Bytes) × List Event)) (d d' : Discovery)
    → (try_watch retries 0 none results).1 ≡ channel
    → read_changes events d ≡ (d', again)
    → watch retries ((results, events) ∷ rounds) d ≡ watch retries rounds d'
unfolding watch
watch-again retries results events rounds d d' t e =
    rw (t, ap (λ r. r.1) e, watch) (ap (λ r. watch retries rounds r.0) e)

-- The loop that watches the store loses no change over errors and over channels that close: after
-- rounds of failures, changes and a closed channel the discovery is as if the changes of all
-- rounds had come one after the other.
pub watch-apply_changes :
    (rounds : List Round) (d : Discovery)
    → watch forever (map as_round rounds) d ≡ (apply_changes (all_changes rounds) d, waiting)
unfolding watch
watch-apply_changes [] d = refl
watch-apply_changes (r ∷ rounds) d =
    watch-again forever (as_round r).0 (as_round r).1 (map as_round rounds) d _
      (ap (λ w. w.1) (try_watch_from 0 none r.failures [])) (read_changes-apply_changes r.changes d)
    ∙ watch-apply_changes rounds (apply_changes r.changes d)
    ∙ ap (λ x. (x, waiting)) (sym (apply_changes-append r.changes (all_changes rounds) d))
