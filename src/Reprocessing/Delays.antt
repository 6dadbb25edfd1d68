-- ===== src/Reprocessing/Delays.antt =====
-- The array of delays once it is filled, in closed form.
use native.Mathlib.Nat.{pow-succ'}
use native.Mathlib.Decide.{dec_lt, ℕ_discrete}
use nodejs_template.Prelude.{
  ℕ, zero, suc, ◌+◌, ◌-◌, ◌*◌, ◌^◌, ◌≤◌, ◌<◌, ◌≡◌, refl, sym, ◌∙◌, ap, Option, none, some, List, [],
  ◌∷◌, ◌++◌, length, length-append, get_elem?, get_elem?-append_left, get_elem?-append_length,
  arith,
}
use nodejs_template.Reprocessing.Send.{double, last_delay, push_delays, fill_delays, delay_at}

-- A delay some doublings later.
abbrev pub doubled : ℕ → Option ℕ → Option ℕ
doubled k none = none
doubled k (some delay) = some (delay * 2 ^ k)

-- The delay of the n-th failure, counted from zero: the one in the list, or the last doubled.
abbrev pub delay_for : List (Option ℕ) → ℕ → Option ℕ
delay_for delays n = elim (get_elem? delays n) [
  | some delay ↦ delay
  | none ↦ doubled (n + 1 - length delays) (last_delay delays)
]

get_elem?-past {ℓ} : {A : Type ℓ} (xs : List A) (n : ℕ) → length xs ≤ n → get_elem? xs n ≡ none
get_elem?-past [] n h = refl
get_elem?-past (x ∷ xs) zero h = absurd (omega arith)
get_elem?-past (x ∷ xs) (suc n) h = get_elem?-past xs n (omega arith)

get_elem?-within {ℓ} :
    {A : Type ℓ} (xs : List A) (n : ℕ) → n < length xs → (x : A) × (get_elem? xs n ≡ some x)
get_elem?-within [] n h = elim h [ ]
get_elem?-within (x ∷ xs) zero h = (x, refl)
get_elem?-within (x ∷ xs) (suc n) h = get_elem?-within xs n (omega arith)

delay_at-some :
    (ds : List (Option ℕ)) (n : ℕ) (d : Option ℕ) → get_elem? ds n ≡ some d → delay_at ds n ≡ d
unfolding delay_at
delay_at-some [] n d h = cc
delay_at-some (x ∷ ds) zero d h = cc
delay_at-some (x ∷ ds) (suc n) d h = delay_at-some ds n d h

last_delay-snoc : (ds : List (Option ℕ)) (d : Option ℕ) → last_delay (ds ++ d ∷ []) ≡ d
unfolding last_delay
last_delay-snoc [] d = refl
last_delay-snoc (x ∷ []) d = refl
last_delay-snoc (x ∷ y ∷ ds) d = last_delay-snoc (y ∷ ds) d

doubled-double : (k : ℕ) (d : Option ℕ) → doubled k (double d) ≡ doubled (suc k) d
unfolding double
doubled-double k none = refl
doubled-double k (some d) = ap some (grind (arith, pow-succ' 2 k))

doubled-one : (d : Option ℕ) → double d ≡ doubled 1 d
unfolding double
doubled-one none = refl
doubled-one (some d) = refl

delay_for-some :
    (ds : List (Option ℕ)) (n : ℕ) (d : Option ℕ) → get_elem? ds n ≡ some d → delay_for ds n ≡ d
delay_for-some ds n d e = ground arith

delay_for-past :
    (ds : List (Option ℕ)) (n : ℕ)
    → length ds ≤ n
    → delay_for ds n ≡ doubled (n + 1 - length ds) (last_delay ds)
delay_for-past ds n h = ground (arith, get_elem?-past ds n h)

delay_for-snoc :
    (ds : List (Option ℕ)) (n : ℕ)
    → delay_for (ds ++ double (last_delay ds) ∷ []) n ≡ delay_for ds n
delay_for-snoc ds n =
    let d = double (last_delay ds) in
    let l = length-append ds (d ∷ []) in
    elim (dec_lt n (length ds)) [
      | yes before ↦
          let (x, e) = get_elem?-within ds n before in
          let e' = get_elem?-append_left ds (d ∷ []) n before ∙ e in
          delay_for-some (ds ++ d ∷ []) n x e' ∙ sym (delay_for-some ds n x e)
      | no past ↦ elim (ℕ_discrete n (length ds)) [
        | yes e ↦
            let one : n + 1 - length ds ≡ 1 = omega arith in
            delay_for-some (ds ++ d ∷ []) n d (rw e (get_elem?-append_length ds [] d))
            ∙ doubled-one (last_delay ds)
            ∙ ap (λ k. doubled k (last_delay ds)) (sym one)
            ∙ sym (delay_for-past ds n (omega arith))
        | no beyond ↦
            let same : suc (n + 1 - length (ds ++ d ∷ [])) ≡ n + 1 - length ds = omega (arith, l) in
            delay_for-past (ds ++ d ∷ []) n (omega (arith, l))
            ∙ ap (doubled (n + 1 - length (ds ++ d ∷ []))) (last_delay-snoc ds d)
            ∙ doubled-double (n + 1 - length (ds ++ d ∷ [])) (last_delay ds)
            ∙ ap (λ k. doubled k (last_delay ds)) same
            ∙ sym (delay_for-past ds n (omega arith))
      ]
    ]

delay_at-get : (ds : List (Option ℕ)) (n : ℕ) → n < length ds → delay_at ds n ≡ delay_for ds n
delay_at-get ds n h =
    let (d, e) = get_elem?-within ds n h in delay_at-some ds n d e ∙ sym (delay_for-some ds n d e)

delay_at-push_delays :
    (missing : ℕ) (ds : List (Option ℕ)) (n : ℕ)
    → n < length ds + missing
    → delay_at (push_delays missing ds) n ≡ delay_for ds n
unfolding push_delays
delay_at-push_delays zero ds n h = delay_at-get ds n (omega arith)
delay_at-push_delays (suc missing) ds n h =
    let ds' = ds ++ double (last_delay ds) ∷ [] in
    delay_at-push_delays missing ds' n
      (omega (arith, length-append ds (double (last_delay ds) ∷ [])))
    ∙ delay_for-snoc ds n

pub delay_at-fill_delays :
    (max : ℕ) (ds : List (Option ℕ)) (n : ℕ)
    → n < max
    → delay_at (fill_delays max ds) n ≡ delay_for ds n
unfolding fill_delays
delay_at-fill_delays max ds n h = delay_at-push_delays (max - length ds) ds n (omega arith)
