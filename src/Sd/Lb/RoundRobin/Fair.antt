-- ===== src/Sd/Lb/RoundRobin/Fair.antt =====
-- Every endpoint gets its turn.
use kit_go.Prelude.{
  ℕ, zero, suc, ◌+◌, ◌*◌, ◌%◌, ◌^◌, ◌≤◌, ◌<◌, ◌≡◌, refl, ap, sym, ◌∙◌, append_assoc, length-append,
  get_elem?-append, List, [], ◌∷◌, ◌++◌, none, some, length, get_elem?, get_elem?-lt, arith,
}
use mathlib.Core.List.{Memᴰ}
use mathlib.Core.List.Memᴰ.{head, tail}
use native.Mathlib.Nat.{mod-lt, add-zero, suc-add, zero-add, zero-mul, add-mod_right, mod-eq_of_lt}
use kit_go.Prelude.Tally.{tally, weight}
use kit_go.Sd.Lb.{Answer, Choice}
use kit_go.Sd.Lb.RoundRobin.{RoundRobin, next_count, old_count, endpoint, calls}

old_count_lem : (c : ℕ) → c < 2 ^ 64 → old_count c ≡ c
unfolding old_count
old_count_lem c h = omega arith

module _ {E : Type 0} (f : E → ℕ) where
  -- The weight of the endpoints at `n` counts from `c` on.
  window : List E → ℕ → ℕ → ℕ
  window es c zero = 0
  window es c (suc n) = weight f (get_elem? es (c % length es)) + window es (c + 1) n

  window_last :
      (es : List E) (c n : ℕ)
      → window es c (suc n) ≡ window es c n + weight f (get_elem? es ((c + n) % length es))
  unfolding window
  window_last es c zero = rw (add-zero c) (omega arith)
  window_last es c (suc n) =
      let shift : c + 1 + n ≡ c + suc n = omega arith in
      omega
        (arith, window_last es (c + 1) n, ap (λ k. weight f (get_elem? es (k % length es))) shift)

  -- A window as long as the list has the same weight wherever it starts.
  window_shift : (es : List E) (c : ℕ) → window es (c + 1) (length es) ≡ window es c (length es)
  unfolding window
  window_shift [] c = refl
  window_shift (e ∷ es) c =
      let around : (c + suc (length es)) % suc (length es) ≡ c % suc (length es) =
        add-mod_right c (suc (length es)) in
      omega (
        arith,
        window_last (e ∷ es) c (suc (length es)),
        ap (λ k. weight f (get_elem? (e ∷ es) k)) around,
      )

  window_start : (es : List E) (c : ℕ) → window es c (length es) ≡ window es 0 (length es)
  window_start es zero = refl
  window_start es (suc c) =
      let step : suc c ≡ c + 1 = omega arith in rw step (window_shift es c ∙ window_start es c)

  -- Below the length the window is the list.
  window_drop : (es pre : List E) → window (pre ++ es) (length pre) (length es) ≡ tally f es
  unfolding window tally
  window_drop [] pre = refl
  window_drop (e ∷ es) pre =
      let all : pre ++ e ∷ es ≡ (pre ++ e ∷ []) ++ es = sym (append_assoc pre (e ∷ []) es) in
      let size : length (pre ++ e ∷ es) ≡ length pre + suc (length es) =
        length-append pre (e ∷ es) in
      let size' : length (pre ++ e ∷ []) ≡ length pre + 1 = length-append pre (e ∷ []) in
      let here : length pre % length (pre ++ e ∷ es) ≡ length pre = mod-eq_of_lt (omega arith) in
      omega (
        arith,
        ap (λ k. weight f (get_elem? (pre ++ e ∷ es) k)) here,
        ap (weight f) (get_elem?-append pre e es),
        ap (λ l. window l (length pre + 1) (length es)) all,
        ap (λ k. window ((pre ++ e ∷ []) ++ es) k (length es)) size',
        window_drop es (pre ++ e ∷ []),
      )

  window_all : (es : List E) (c : ℕ) → window es c (length es) ≡ tally f es
  window_all es c = window_start es c ∙ window_drop es []

  window_append :
      (es : List E) (c m n : ℕ) → window es c (m + n) ≡ window es c m + window es (c + m) n
  unfolding window
  window_append es c zero n = rw (add-zero c, zero-add n) (omega arith)
  window_append es c (suc m) n =
      let shift : c + 1 + m ≡ c + suc m = omega arith in
      rw (suc-add m n) (omega (arith, window_append es (c + 1) m n, ap (λ k. window es k n) shift))

  window_rounds : (es : List E) (c k : ℕ) → window es c (k * length es) ≡ k * tally f es
  unfolding window
  window_rounds es c zero = rw (zero-mul (length es)) (omega arith)
  window_rounds es c (suc k) =
      let split : suc k * length es ≡ length es + k * length es = omega arith in
      rw split (
        omega (
          arith,
          window_append es c (length es) (k * length es),
          window_all es c,
          window_rounds es (c + length es) k,
        ))

-- The endpointer answers with endpoints.
abbrev pub HasEndpoints : {E : Type 0} → Answer E → Type 0
HasEndpoints answer = (answer.err ≡ none) × (0 < length answer.endpoints)

abbrev next : RoundRobin → RoundRobin
next rr = record { c = (rr.c + 1) % 2 ^ 64 }

-- The weight of the endpoint of a choice.
abbrev pub choice_weight : {E : Type 0} → (E → ℕ) → Choice E → ℕ
choice_weight f choice = weight f choice.endpoint

module _ {E : Type 0} (f : E → ℕ) (answer : Answer E) (ok : HasEndpoints answer) where
  abbrev chosen : RoundRobin → Choice E
  chosen rr = record {
    endpoint = get_elem? answer.endpoints (rr.c % length answer.endpoints);
    err = none;
  }

  endpoint_ok : (rr : RoundRobin) → rr.c < 2 ^ 64 → endpoint answer rr ≡ (chosen rr, next rr)
  unfolding endpoint next_count
  endpoint_ok rr h = ground (arith, old_count_lem rr.c, ok.0, ok.1)

  calls-window :
      (n : ℕ) (rr : RoundRobin)
      → rr.c + n ≤ 2 ^ 64
      → tally (choice_weight f) (calls n answer rr).0 ≡ window f answer.endpoints rr.c n
  unfolding calls window tally
  calls-window zero rr h = refl
  calls-window (suc zero) rr h = rw (endpoint_ok rr (omega arith)) refl
  calls-window (suc (suc n)) rr h =
      let small : (rr.c + 1) % 2 ^ 64 ≡ rr.c + 1 = omega arith in
      rw (endpoint_ok rr (omega arith)) (
        omega (
          arith,
          calls-window (suc n) (next rr) (omega arith),
          ap (λ k. window f answer.endpoints k (suc n)) small,
        ))

  -- While the endpointer answers the same, and as long as the 64-bit counter does not wrap, `k`
  -- times as many calls as there are endpoints choose each endpoint exactly `k` times, from
  -- whatever count they start (for every weight `f` the weights of the choices add up to `k`
  -- times those of the endpoints).
  pub calls_fair :
      (k : ℕ) (rr : RoundRobin)
      → rr.c + k * length answer.endpoints ≤ 2 ^ 64
      → tally (choice_weight f) (calls (k * length answer.endpoints) answer rr).0
        ≡ k * tally f answer.endpoints
  calls_fair k rr h =
      calls-window (k * length answer.endpoints) rr h ∙ window_rounds f answer.endpoints rr.c k

pub mem-get_elem? {ℓ} :
    {A : Type ℓ} (l : List A) (i : ℕ) (a : A) → get_elem? l i ≡ some a → Memᴰ a l
mem-get_elem? [] i a h = cc
mem-get_elem? (x ∷ l) zero a h = head (cc)
mem-get_elem? (x ∷ l) (suc i) a h = tail (mem-get_elem? l i a h)

-- A call on any 64-bit count returns one of the endpoints with no error, and moves the count on
-- by one, modulo 2 ^ 64: the index is never out of range.
pub endpoint_in_range :
    {E : Type 0} (answer : Answer E) (rr : RoundRobin)
    → HasEndpoints answer
    → rr.c < 2 ^ 64
    → (e : E) × Memᴰ e answer.endpoints
      × (endpoint answer rr
          ≡ (record { endpoint = some e; err = none }, record { c = (rr.c + 1) % 2 ^ 64 }))
endpoint_in_range answer rr ok h =
    let i : ℕ = rr.c % length answer.endpoints in
    let (e, p) = get_elem?-lt answer.endpoints i (mod-lt rr.c ok.1) in
    (
      e,
      mem-get_elem? answer.endpoints i e p,
      endpoint_ok (λ _. 0) answer ok rr h
          ∙ ap (λ o. (record { endpoint = o; err = none }, next rr)) p,
    )
