-- ===== src/Tools/Reviewed.antt =====
-- What the constructor of a tool in python/oneiro/tools.py guarantees.
use mathlib.Core.Path.{subst}
use oneiro_ostis.Prelude.{
  String, ◌≡◌, inl, inr, refl, sym, Bool, true, false, List, [], ◌∷◌, ok, ◌>>◌, ◌==◌,
  string_comparable, require, contains, all, Bool-cases, and_parts, eq_iff,
}
use oneiro_ostis.Tools.Effects.{role_effects}
use oneiro_ostis.Tools.Schema.{ToolError}
use oneiro_ostis.Tools.{Tool, role_may, post_init}

-- What holds of all members holds of a member.
pub contains-all :
    (q : String → Bool) (xs : List String) (x : String)
    → all q xs ≡ true
    → contains xs x ≡ true
    → q x ≡ true
contains-all q [] x h found = cc
contains-all q (y ∷ ys) x h found =
    let (here, later) = and_parts (q y) (all q ys) h in
    elim (Bool-cases (x == y)) [
      | inl e ↦ subst (λ z. q z ≡ true) (sym ((eq_iff x y).0 e)) here
      | inr e ↦ contains-all q ys x later (rw e at found)
    ]

both_required :
    (a b : Bool) (e f : ToolError) {done : Unit {0}}
    → (require a e >> require b f) ≡ ok done
    → b ≡ true
both_required true true e f h = refl
both_required true false e f h = cc
both_required false b e f h = cc

module _ {H : Type 0} (t : Tool H) (role : String) where
  -- A tool that could be built may be used by each role that it names: the check of the
  -- constructor leaves no tool that is offered to nobody or that the policy refuses to its own role.
  pub post_init-role_may :
      (done : Unit {0}) → post_init t ≡ ok done → role_may role t t.effect ≡ contains t.roles role
  unfolding post_init role_may
  post_init-role_may done h =
      let owned = both_required _ _ _ _ h in
      elim (Bool-cases (contains t.roles role)) [
        | inl e ↦ rw e (contains-all (λ r. contains (role_effects r) t.effect) t.roles role owned e)
        | inr e ↦ rw e refl
      ]
