-- ===== src/Dashboards/Gauge.antt =====
-- The gauge of the clients, under every interleaving of their loops.
use rust_roast.Prelude.{
  ℕ, zero, suc, ◌-◌, ◌≤◌, Bool, true, false, List, [], ◌∷◌, ◌++◌, some, ◌≡◌, refl, ◌∙◌, sym, ap,
  subst, arith, if◌then◌else◌, get_elem?, set, Bool-cases, Option-cases, inl, inr,
}
use rust_roast.Host.{Host}
use rust_roast.Dashboards.{
  Client, Dashboards, Event, react, after_reaction, round, ended, Step, joins, rounds, step, after,
}

-- The number of the clients whose loop runs.
abbrev pub count_open : List Client → ℕ
count_open [] = 0
count_open (c ∷ cs) = if c.is_open then suc (count_open cs) else count_open cs

count_open-append :
    (cs : List Client) (c : Client)
    → c.is_open ≡ true
    → count_open (cs ++ c ∷ []) ≡ suc (count_open cs)
count_open-append [] c e = rw e refl
count_open-append (d ∷ cs) c e = elim (Bool-cases d.is_open) [
  | inl k ↦ rw (k, count_open-append cs c e) refl
  | inr k ↦ rw (k, count_open-append cs c e) refl
]

head-set :
    (cs : List Client) (c d : Client)
    → (c.is_open ≡ false → d.is_open ≡ false)
    → (if ended c d then count_open (c ∷ cs) - 1 else count_open (c ∷ cs)) ≡ count_open (d ∷ cs)
head-set cs c d stays = elim (Bool-cases c.is_open) [
  | inr k ↦ let m = stays k in rw (k, m) refl
  | inl k ↦ elim (Bool-cases d.is_open) [ inl m ↦ rw (k, m) refl | inr m ↦ rw (k, m) (omega arith) ]
]

-- A client whose loop runs is counted.
count_open-positive :
    (cs : List Client) (i : ℕ) (c : Client)
    → get_elem? cs i ≡ some c
    → c.is_open ≡ true
    → 1 ≤ count_open cs
count_open-positive [] i c e k = cc
count_open-positive (x ∷ cs) zero c e k =
    let same : c ≡ x = cc in
    let runs = subst (λ (y : Client). y.is_open ≡ true) same k in rw runs (omega arith)
count_open-positive (x ∷ cs) (suc i) c e k = ground (arith, count_open-positive cs i c e k)

-- A client whose loop may end, in place of the one at an index.
count_open-set :
    (cs : List Client) (i : ℕ) (c d : Client)
    → get_elem? cs i ≡ some c
    → (c.is_open ≡ false → d.is_open ≡ false)
    → (if ended c d then count_open cs - 1 else count_open cs) ≡ count_open (set cs i d)
count_open-set [] i c d e stays = cc
count_open-set (x ∷ cs) zero c d e stays =
    let same : x ≡ c = cc in
    subst
      (λ y.
        (if ended c d then count_open (y ∷ cs) - 1 else count_open (y ∷ cs)) ≡ count_open (d ∷ cs))
      (sym same) (head-set cs c d stays)
count_open-set (x ∷ cs) (suc i) c d e stays =
    let rest = count_open-set cs i c d e stays in
    let positive = count_open-positive cs i c e in ground (arith, rest, positive)

module _ (h : Host) where
  round-closed :
      (c : Client) (event : Event h × Bool) → c.is_open ≡ false → (round h c event).is_open ≡ false
  unfolding round
  round-closed c (event, accepts) e =
      ap (λ b. (if b then after_reaction c (react h c.kind event) accepts else c).is_open) e ∙ e

  step-counts :
      (d : Dashboards) (s : Step h)
      → d.ws_clients ≡ count_open d.clients
      → (step h d s).ws_clients ≡ count_open (step h d s).clients
  unfolding step
  step-counts d (joins kind) k =
      ap suc k
      ∙ sym (count_open-append d.clients (record { kind = kind; texts = []; is_open = true }) refl)
  step-counts d (rounds i event) k = elim (Option-cases (get_elem? d.clients i)) [
    | inl e ↦ rw (step, e) k
    | inr (c, e) ↦
        rw (step, e, k) (count_open-set d.clients i c (round h c event) e (round-closed c event))
  ]

  -- After every sequence of joins and rounds, in whatever order the loops of the clients take their
  -- turns, the gauge is the number of the clients whose loop runs.
  pub ws_clients-counts :
      (history : List (Step h))
      → (after h history).ws_clients ≡ count_open (after h history).clients
  unfolding after
  ws_clients-counts [] = refl
  ws_clients-counts (s ∷ history) = step-counts (after h history) s (ws_clients-counts history)
