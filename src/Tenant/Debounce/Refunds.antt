-- ===== src/Tenant/Debounce/Refunds.antt =====
-- No more is given back than failed requests are owed.
use mathlib.Core.Path.{subst}
use web3_rpc_proxy.Prelude.{
  ℕ, zero, suc, ◌+◌, ◌≤◌, ◌≡◌, refl, sym, Bool, true, false, not, List, [], ◌∷◌, length, filter,
  any, ◌==◌, nat_comparable, nat_beq_iff, arith, if◌then◌else◌, Bool-cases, inl, inr,
}
use web3_rpc_proxy.Prelude.Int.{ℤ, pos, negsuc, pos_part, ltb_ℤ, ◌+ℤ◌, ◌-ℤ◌}
use web3_rpc_proxy.Tenant.{App, affected, unaffected, reset}
use web3_rpc_proxy.Tenant.Debounce.{
  Stage, untouched, started, timed, written, over, Timers, at, touched, stored, saved, unsaved,
  cleared, charged, Step, charges, affects, unaffects, stores, saves, fails, clears, Reach, here,
  next, failures, given_back, failed_by, given_by, rise, balance_of,
}

abbrev listed : ℕ → List ℕ → Bool
listed i = any (λ j. j == i)

abbrev without : ℕ → List ℕ → List ℕ
without i = filter (λ j. not (j == i))

length-without-le : (i : ℕ) (xs : List ℕ) → length (without i xs) ≤ length xs
length-without-le i [] = omega arith
length-without-le i (x ∷ xs) = ground (arith, length-without-le i xs)

length-without : (i : ℕ) (xs : List ℕ) → listed i xs ≡ true → length (without i xs) + 1 ≤ length xs
length-without i [] h = absurd (cc h)
length-without i (x ∷ xs) h = ground (arith, h, length-without i xs, length-without-le i xs)

listed-without :
    (i k : ℕ) (xs : List ℕ) → (i == k) ≡ false → listed k xs ≡ true → listed k (without i xs) ≡ true
listed-without i k [] n h = h
listed-without i k (x ∷ xs) n h =
    ground (arith, n, h, listed-without i k xs n, nat_beq_iff x i, nat_beq_iff x k, nat_beq_iff i k)

-- A goroutine that is still to write.
abbrev is_live : Stage → Bool
is_live started = true
is_live timed = true
is_live _ = false

abbrev is_untouched : Stage → Bool
is_untouched untouched = true
is_untouched _ = false

kept_part : (o : ℤ) → pos_part (if ltb_ℤ (pos 0) o then pos 0 else o) ≡ 0
kept_part (pos zero) = refl
kept_part (pos (suc n)) = ground arith
kept_part (negsuc n) = ground arith

rise_self : (a : ℤ) → rise a a ≡ 0
unfolding rise ◌-ℤ◌
rise_self a = ground arith

module _ {F : Type 0} where
  part-reset : (app : App F) → pos_part (reset app).offset ≡ 0
  part-reset app = ground (arith, kept_part app.offset)

  -- Before any call: no request has been touched, and nothing is owed to one.
  pub record New (s : Timers F) : Type 0 where
    pub untouched_all : (i : ℕ) → s.stages i ≡ untouched
    pub owed_none : (i : ℕ) → (s.apps i).offset ≡ pos 0

  -- What is owed, over the requests of a list, and what was given back stay within a number.
  record Owing (given failed : ℕ) (s : Timers F) : Type 0 where
    owed : List ℕ
    enough : length owed + given ≤ failed
    fresh : (i : ℕ) → is_untouched (s.stages i) ≡ true → (s.apps i).offset ≡ pos 0
    at_most : (i : ℕ) → pos_part (s.apps i).offset ≤ 1
    live :
        (i : ℕ)
        → is_live (s.stages i) ≡ true
        → pos_part (s.apps i).offset ≡ 1
        → listed i owed ≡ true

  charged-Owing :
      (g f : ℕ) (capacity rate now : ℤ) (s : Timers F)
      → Owing g f s
      → Owing (g + 0) (f + 0) (charged capacity rate now s)
  unfolding charged
  charged-Owing g f capacity rate now s v = record {
    owed = v.owed;
    enough = omega (arith, v.enough);
    fresh = v.fresh;
    at_most = v.at_most;
    live = v.live;
  }

  affected-Owing :
      (g f i : ℕ) (now : ℤ) (s : Timers F)
      → s.stages i ≡ untouched
      → Owing g f s
      → Owing (g + 0) (f + 0) (touched i (affected now) s)
  unfolding touched affected
  affected-Owing g f i now s h v = record {
    owed = v.owed;
    enough = omega (arith, v.enough);
    fresh = λ j n. ground (arith, n, v.fresh j, nat_beq_iff i j);
    at_most = λ j. ground (arith, v.at_most j, v.at_most i);
    live = λ j n o. ground (arith, n, o, h, v.live j, v.fresh i, nat_beq_iff i j);
  }

  unaffected-Owing :
      (g f i : ℕ) (s : Timers F)
      → s.stages i ≡ untouched
      → Owing g f s
      → Owing (g + 0) (f + 1) (touched i unaffected s)
  unfolding touched unaffected ◌+ℤ◌
  unaffected-Owing g f i s h v = record {
    owed = i ∷ v.owed;
    enough = omega (arith, v.enough);
    fresh = λ j n. ground (arith, n, v.fresh j, nat_beq_iff i j);
    at_most = λ j. ground (arith, h, v.at_most j, v.fresh i, nat_beq_iff i j);
    live = λ j n o. ground (arith, n, o, v.live j, nat_beq_iff i j);
  }

  moved-Owing :
      (g f i : ℕ) (p : Stage) (b : Bool) (s : Timers F)
      → is_untouched p ≡ false
      → (is_live p ≡ true → is_live (s.stages i) ≡ true)
      → Owing g f s
      → Owing (g + 0) (f + 0) (record s { stages = at i p s.stages; timer = b })
  moved-Owing g f i p b s h l v = record {
    owed = v.owed;
    enough = omega (arith, v.enough);
    fresh = λ j n. ground (arith, n, h, v.fresh j, nat_beq_iff i j);
    at_most = v.at_most;
    live = λ j n o. ground (arith, n, o, l, v.live j, nat_beq_iff i j);
  }

  saved_at_most :
      (i j : ℕ) (s : Timers F) {g f : ℕ} → Owing g f s → pos_part ((saved i s).apps j).offset ≤ 1
  unfolding saved
  saved_at_most i j s v = ground (arith, v.at_most j, part-reset (s.apps i))

  saved-Owing :
      (g f i : ℕ) (s : Timers F)
      → s.stages i ≡ timed
      → Owing g f s
      → Owing (g + pos_part (s.apps i).offset) (f + 0) (saved i s)
  unfolding saved
  saved-Owing g f i s h v = elim (Bool-cases (pos_part (s.apps i).offset == 1)) [
    | inl e ↦
        let one : pos_part (s.apps i).offset ≡ 1 =
          (nat_beq_iff (pos_part (s.apps i).offset) 1).0 e in
        record {
          owed = without i v.owed;
          enough = omega (arith, one, v.enough, length-without i v.owed (v.live i (rw h refl) one));
          fresh = λ j n. ground (arith, n, v.fresh j, nat_beq_iff i j);
          at_most = λ j. saved_at_most i j s v;
          live =
              λ j n o. ground (arith, n, o, v.live j, nat_beq_iff i j, listed-without i j v.owed);
        }
    | inr e ↦ record {
      owed = v.owed;
      enough = ground (arith, e, v.enough, v.at_most i, nat_beq_iff (pos_part (s.apps i).offset) 1);
      fresh = λ j n. ground (arith, n, v.fresh j, nat_beq_iff i j);
      at_most = λ j. saved_at_most i j s v;
      live = λ j n o. ground (arith, n, o, v.live j, nat_beq_iff i j);
    }
  ]

  given-Owing :
      {t u : Timers F} (s : Timers F) (g f n : ℕ)
      → t ≡ u
      → rise (balance_of s.hash) (balance_of u.hash) ≡ n
      → Owing (g + n) f u
      → Owing (g + rise (balance_of s.hash) (balance_of t.hash)) f t
  given-Owing s g f n e h v =
      subst (λ x. Owing (g + rise (balance_of s.hash) (balance_of x.hash)) f x) (sym e) (rw h v)

  -- The pipeline adds what is owed, and no more.
  rise-saved :
      (i : ℕ) (s : Timers F)
      → rise (balance_of s.hash) (balance_of (saved i s).hash) ≡ pos_part (s.apps i).offset
  unfolding saved rise ◌-ℤ◌ ◌+ℤ◌
  rise-saved i s = ground arith

  Step-Owing :
      {s t : Timers F} (g f : ℕ) (x : Step s t)
      → Owing g f s
      → Owing (g + given_by x) (f + failed_by x) t
  Step-Owing {s} g f (charges capacity rate now e) v =
      subst (Owing (g + 0) (f + 0)) (sym e) (charged-Owing g f capacity rate now s v)
  Step-Owing {s} g f (affects i now h e) v =
      given-Owing s g (f + 0) 0 e (unfold touched in rise_self (balance_of s.hash))
        (affected-Owing g f i now s h v)
  Step-Owing {s} g f (unaffects i h e) v =
      given-Owing s g (f + 1) 0 e (unfold touched in rise_self (balance_of s.hash))
        (unaffected-Owing g f i s h v)
  Step-Owing {s} g f (stores i h e) v =
      given-Owing s g (f + 0) 0 e (unfold stored in rise_self (balance_of s.hash))
        (unfold stored in moved-Owing g f i timed true s refl (λ q. rw h refl) v)
  Step-Owing {s} g f (saves i h e) v =
      given-Owing s g (f + 0) (pos_part (s.apps i).offset) e (rise-saved i s)
        (saved-Owing g f i s h v)
  Step-Owing {s} g f (fails i h e) v =
      given-Owing s g (f + 0) 0 e (unfold unsaved in rise_self (balance_of s.hash))
        (unfold unsaved in moved-Owing g f i written s.timer s refl (λ q. absurd (cc q)) v)
  Step-Owing {s} g f (clears i h e) v =
      given-Owing s g (f + 0) 0 e (unfold cleared in rise_self (balance_of s.hash))
        (unfold cleared in moved-Owing g f i over false s refl (λ q. absurd (cc q)) v)

  Reach-Owing : {s t : Timers F} → New s → (r : Reach s t) → Owing (given_back r) (failures r) t
  Reach-Owing v here = record {
    owed = [];
    enough = omega arith;
    fresh = λ j n. v.owed_none j;
    at_most = λ j. ground (arith, v.owed_none j);
    live = λ j n o. ground (arith, o, v.owed_none j);
  }
  Reach-Owing v (next r x) = Step-Owing (given_back r) (failures r) x (Reach-Owing v r)

  -- However the requests of one key, their timers and the script interleave: never more is added to the
  -- balance of the bucket, beside what the script itself writes, than `Unaffected` was called, each call
  -- counting for one.
  pub given_back-le : {s t : Timers F} → New s → (r : Reach s t) → given_back r ≤ failures r
  given_back-le v r = let o = Reach-Owing v r in omega (arith, o.enough)
