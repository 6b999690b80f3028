-- ===== src/Server/Listener/Pauses.antt =====
-- The pauses of serveListener in server/server.go over errors of Accept that pass.
use frpc.Base.{
  ℕ, zero, suc, ◌*◌, ◌^◌, ◌≤◌, ◌≡◌, refl, ap, ◌∙◌, Bool, false, List, [], ◌∷◌, Option, none, some,
  arith, ltb, if◌then◌else◌,
}
use frpc.Server.Listener.{
  Accept, temporary, Stop, Listening, next_delay, get_done_chan, accept_one, serve_listener,
}

abbrev pub temporaries : ℕ → List Accept
temporaries zero = []
temporaries (suc n) = temporary ∷ temporaries n

-- min (5 * 2 ^ n) 1000
abbrev pub backoff : ℕ → ℕ
backoff n = if ltb 1000 (5 * 2 ^ n) then 1000 else 5 * 2 ^ n

doubled :
    (x y : ℕ)
    → 1 ≤ x
    → y ≡ x * 2
    → next_delay (if ltb 1000 (5 * x) then 1000 else 5 * x)
      ≡ (if ltb 1000 (5 * y) then 1000 else 5 * y)
unfolding next_delay
doubled x y p e = ground (arith, p, e)

pow_positive : (n : ℕ) → 1 ≤ 2 ^ n
pow_positive zero = omega arith
pow_positive (suc n) = omega (arith, pow_positive n)

pow_double : (n : ℕ) → 2 ^ suc n ≡ 2 ^ n * 2
pow_double n = omega arith

next_delay-backoff : (n : ℕ) → next_delay (backoff n) ≡ backoff (suc n)
next_delay-backoff n = doubled (2 ^ n) (2 ^ suc n) (pow_positive n) (pow_double n)

abbrev pub doubling : ℕ → ℕ → List ℕ
doubling n zero = []
doubling n (suc k) = backoff n ∷ doubling (suc n) k

-- Noting the pauses, the first one first, before those that are there.
abbrev pub noted : List ℕ → List ℕ → List ℕ
noted [] old = old
noted (d ∷ ds) old = noted ds (d ∷ old)

if_false {ℓ} : {A : Type ℓ} {b : Bool} (x y : A) → b ≡ false → (if b then x else y) ≡ y
if_false x y e = rw e refl

-- A round with an error that passes, where doneChan is not closed.
one_temporary :
    (n : ℕ) (d : ℕ) (l : Listening)
    → (get_done_chan l.done_chan).0 ≡ false
    → next_delay l.temp_delay ≡ d
    → serve_listener (temporaries (suc n)) l
      ≡ serve_listener (temporaries n) (record l {
        temp_delay = d;
        slept = d ∷ l.slept;
        done_chan = (get_done_chan l.done_chan).1;
      })
unfolding serve_listener accept_one
one_temporary n d l up e =
    ap
      (λ (r : Option Stop × Listening). elim r.0 as (λ _. Option Stop × Listening) [
        | some x ↦ (some x, r.1)
        | none ↦ serve_listener (temporaries n) r.1
      ])
      (if_false _ _ up
        ∙ ap
            (λ t. (
              none,
              record l {
                temp_delay = t;
                slept = t ∷ l.slept;
                done_chan = (get_done_chan l.done_chan).1;
              },
            ))
            e)

-- The channel stays as it is once it has been made.
get_done_chan-get_done_chan :
    (d : Option Bool) → (get_done_chan d).0 ≡ false → (get_done_chan (get_done_chan d).1).0 ≡ false
unfolding get_done_chan
get_done_chan-get_done_chan none h = refl
get_done_chan-get_done_chan (some b) h = h

raised :
    (n k : ℕ) (l : Listening)
    → (get_done_chan l.done_chan).0 ≡ false
    → l.temp_delay ≡ backoff k
    → (serve_listener (temporaries n) l).1.slept ≡ noted (doubling (suc k) n) l.slept
raised zero k l up e = unfold serve_listener in refl
raised (suc n) k l up e =
    ap (λ r. r.1.slept)
      (one_temporary n (backoff (suc k)) l up (ap next_delay e ∙ next_delay-backoff k))
    ∙ raised n (suc k)
        (record l {
          temp_delay = backoff (suc k);
          slept = backoff (suc k) ∷ l.slept;
          done_chan = (get_done_chan l.done_chan).1;
        })
        (get_done_chan-get_done_chan l.done_chan up) refl

-- The pauses of serveListener over errors in a row that pass are 5, 10, 20 and so on milliseconds,
-- doubled each time and never more than 1000. Conditions: doneChan is not closed, and no pause was
-- due before.
pub serve_listener-slept :
    (n : ℕ) (l : Listening)
    → (get_done_chan l.done_chan).0 ≡ false
    → l.temp_delay ≡ 0
    → (serve_listener (temporaries n) l).1.slept ≡ noted (doubling 0 n) l.slept
serve_listener-slept zero l up e = unfold serve_listener in refl
serve_listener-slept (suc n) l up e =
    ap (λ r. r.1.slept)
      (one_temporary n (backoff 0) l up (ap next_delay e ∙ unfold next_delay in refl))
    ∙ raised n 0
        (record l {
          temp_delay = backoff 0;
          slept = backoff 0 ∷ l.slept;
          done_chan = (get_done_chan l.done_chan).1;
        })
        (get_done_chan-get_done_chan l.done_chan up) refl
