-- ===== src/RateLimit/Run.antt =====
-- crates/construct-rate-limit/src/degraded.rs: a run of charges of many keys in one window.
use construct_server.Base.{
  List, ℕ, ℤ, ◌∷◌, ◌≡◌, ◌≢◌, ◌≤◌, if◌then◌else◌, pos, ◌&&◌, true, ◌==◌, false, suc, [], ◌⊎◌, ◌<◌,
  Bool-cases, arith, negsuc, subst, ◌^◌, All, inl, inr, leb→le, zero, leb_false→lt, refl, sym, ◌+◌,
  ◌-◌, min, ◌∙◌, get_or-replicate,
}
use construct_server.RateLimit.{
  DegradedLimiter, DegradedOutcome, charge, fxhash, window_of, saturating_inc, new, List, ℕ,
}
use construct_server.RateLimit.Table.{IsMap}
use construct_server.RateLimit.Window.{used, IsTable, Charged}
use construct_server.RateLimit.Budget.{charge-Charged}

-- One call of `charge`.
pub record Call : Type 0 where
  pub key : List ℕ
  pub limit : ℤ
  pub window_secs : ℕ
  pub now_secs : ℕ

abbrev pub made : DegradedLimiter → Call → DegradedLimiter × DegradedOutcome
made l c = charge l c.key c.limit c.window_secs c.now_secs

-- How many of the calls for keys that hash to `hash` are allowed and counted.
unfoldable pub grants : ℕ → DegradedLimiter → List Call → ℕ
grants hash l [] = 0
grants hash l (c ∷ calls) =
    let (l', o) = made l c in
    let rest = grants hash l' calls in
    if fxhash c.key == hash && (o.allowed && o.tracked) then suc rest else rest

-- A call in the window that starts at `w`; for keys that hash to `hash` the limit is `limit`.
pub record InWindow (hash limit w : ℕ) (c : Call) : Type 0 where
  pub same_window : window_of c.window_secs c.now_secs ≡ w
  pub same_limit : fxhash c.key ≡ hash → c.limit ≡ pos limit

-- What one call leaves of the budget of `hash`.
pub record Spent (hash limit w : ℕ) (c : Call) (l : DegradedLimiter) : Type 0 where
  pub table : IsTable (made l c).0
  pub kept : fxhash c.key ≢ hash → used (made l c).0 hash w ≡ used l hash w
  pub granted :
      fxhash c.key ≡ hash
      → (made l c).1.allowed && (made l c).1.tracked ≡ true
      → (used (made l c).0 hash w ≡ saturating_inc (used l hash w))
        × (used (made l c).0 hash w ≤ limit)
  pub refused :
      fxhash c.key ≡ hash
      → (made l c).1.allowed && (made l c).1.tracked ≡ false
      → (used (made l c).0 hash w ≡ used l hash w) ⊎ (limit < used (made l c).0 hash w)

module _ (hash limit w : ℕ) (l l' : DegradedLimiter) (o : DegradedOutcome)
    (c : Charged hash limit w l l' o) where
  Charged-granted :
      o.allowed && o.tracked ≡ true
      → (used l' hash w ≡ saturating_inc (used l hash w)) × (used l' hash w ≤ limit)
  Charged-granted g =
      let tracked : o.tracked ≡ true = ground (arith, g) in
      let allowed : o.allowed ≡ true = ground (arith, g) in
      (c.counted tracked, leb→le _ _ (sym (c.judged tracked) ∙ allowed))

  Charged-refused :
      o.allowed && o.tracked ≡ false → (used l' hash w ≡ used l hash w) ⊎ (limit < used l' hash w)
  Charged-refused g = elim (Bool-cases o.tracked) [
    | inr untracked ↦ inl (c.uncounted untracked).1
    | inl tracked ↦
        let denied : o.allowed ≡ false = ground (arith, g, tracked) in
        inr (leb_false→lt _ _ (sym (c.judged tracked) ∙ denied))
  ]

positive-Spent :
    (hash limit w n : ℕ) (c : Call) (l : DegradedLimiter)
    → IsTable l
    → 1 ≤ n
    → c.limit ≡ pos n
    → InWindow hash limit w c
    → Spent hash limit w c l
positive-Spent hash limit w n c l t positive at i =
    let charged : Charged (fxhash c.key) n w l (made l c).0 (made l c).1 =
      subst (λ k. Charged (fxhash c.key) n k l (made l c).0 (made l c).1) i.same_window
        (rw at (charge-Charged l c.key n c.window_secs c.now_secs t positive)) in
    let own : fxhash c.key ≡ hash → Charged hash limit w l (made l c).0 (made l c).1 = λ same.
      let budget : n ≡ limit = ground (arith, i.same_limit same, at) in
      subst (λ m. Charged hash m w l (made l c).0 (made l c).1) budget
        (subst (λ h. Charged h n w l (made l c).0 (made l c).1) same charged) in
    record {
      table = charged.table;
      kept = λ ne. charged.others hash ne;
      granted = λ same. Charged-granted hash limit w l _ _ (own same);
      refused = λ same. Charged-refused hash limit w l _ _ (own same);
    }

-- A call whose limit is not positive changes nothing.
denied-Spent :
    (hash limit w : ℕ) (c : Call) (l : DegradedLimiter)
    → IsTable l
    → made l c ≡ (l, record { allowed = false; tracked = true })
    → Spent hash limit w c l
denied-Spent hash limit w c l t e = record {
  table = rw e t;
  kept = λ ne. rw e refl;
  granted = λ same g. absurd (ground (arith, e, g));
  refused = λ same g. inl (rw e refl);
}

limit-Spent :
    (hash limit w : ℕ) (n : ℤ) (c : Call) (l : DegradedLimiter)
    → c.limit ≡ n
    → IsTable l
    → InWindow hash limit w c
    → Spent hash limit w c l
limit-Spent hash limit w (negsuc n) c l e t i =
    denied-Spent hash limit w c l t (rw e (unfold charge in refl))
limit-Spent hash limit w (pos zero) c l e t i =
    denied-Spent hash limit w c l t (rw e (unfold charge in refl))
limit-Spent hash limit w (pos (suc n)) c l e t i =
    positive-Spent hash limit w (suc n) c l t (omega arith) e i

grants-used :
    (hash limit w : ℕ) (calls : List Call) (l : DegradedLimiter)
    → limit < 2 ^ 31
    → IsTable l
    → All (InWindow hash limit w) calls
    → grants hash l calls + min (used l hash w) limit ≤ limit
unfolding grants
grants-used hash limit w [] l small t all = omega arith
grants-used hash limit w (c ∷ calls) l small t all =
    let s = limit-Spent hash limit w c.limit c l refl t all.0 in
    let ih = grants-used hash limit w calls (made l c).0 small s.table all.1 in
    elim (Bool-cases (fxhash c.key == hash)) [
      | inr other ↦
          rw (other) (let same = s.kept (ground (arith, other)) in omega (arith, ih, same))
      | inl same ↦ elim (Bool-cases ((made l c).1.allowed && (made l c).1.tracked)) [
        | inl counted ↦
            let fact = s.granted (ground (arith, same)) counted in
            rw (same, counted) (ground (arith, ih, fact, small))
        | inr refused ↦
            let fact = s.refused (ground (arith, same)) refused in
            rw (same, refused) (omega (arith, ih, fact))
      ]
    ]

-- Over any run of charges in one window, whatever the other keys do and whenever the table is
-- purged: of the calls for one hash, all with one limit, at most `limit` are allowed and counted,
-- less what was used of the window before.
pub window_budget :
    (hash limit w : ℕ) (calls : List Call) (l : DegradedLimiter)
    → limit < 2 ^ 31
    → IsTable l
    → All (InWindow hash limit w) calls
    → grants hash l calls ≤ limit - used l hash w
window_budget hash limit w calls l small t all =
    omega (arith, grants-used hash limit w calls l small t all)

pub new-IsTable : IsTable new
unfolding new
new-IsTable = record { sixteen = refl; maps = λ i. subst IsMap (sym (get_or-replicate 16 i [])) tt }
