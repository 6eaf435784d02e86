-- ===== src/Sandbox/Injection.antt =====
-- crates/meepo-sandbox/src/macos.rs: what of a policy's text its roots decide.
use meepo.Prelude.{ℕ, suc, ◌≡◌, refl, ap, String, List, [], ◌∷◌, length, arith}
use meepo.Prelude.Text.{join}
use meepo.Sandbox.{NetworkPolicy, SandboxPathContext, managed, restricted, denied, allowed}
use meepo.Sandbox.Seatbelt.{
  join_with, root_name, clauses, section, sections, all_readable, build_seatbelt_policy,
}

suc-length : (n m : ℕ) → suc n ≡ suc m → n ≡ m
suc-length n m h = omega (arith, h)

no_length : (n : ℕ) → suc n ≡ 0 → ⊥
no_length n h = omega (arith, h)

length-no : (n : ℕ) → 0 ≡ suc n → ⊥
length-no n h = omega (arith, h)

clauses-length :
    (kind : String) (i : ℕ) (xs ys : List String)
    → length xs ≡ length ys
    → clauses kind i xs ≡ clauses kind i ys
clauses-length kind i [] [] h = refl
clauses-length kind i [] (y ∷ ys) h = absurd (length-no (length ys) h)
clauses-length kind i (x ∷ xs) [] h = absurd (no_length (length xs) h)
clauses-length kind i (x ∷ xs) (y ∷ ys) h =
    ap (λ cs. join "  (subpath (param \"" (join (root_name kind i) "\"))") ∷ cs)
      (clauses-length kind (suc i) xs ys (suc-length _ _ h))

section-length :
    (opening kind : String) (xs ys : List String)
    → length xs ≡ length ys
    → section opening kind xs ≡ section opening kind ys
section-length opening kind [] [] h = refl
section-length opening kind [] (y ∷ ys) h = absurd (length-no (length ys) h)
section-length opening kind (x ∷ xs) [] h = absurd (no_length (length xs) h)
section-length opening kind (x ∷ xs) (y ∷ ys) h =
    ap (λ cs. join opening (join (join_with "\n" cs) ")"))
      (clauses-length kind 0 (x ∷ xs) (y ∷ ys) h)

sections-length :
    (opening kind : String) (xs ys : List String)
    → length xs ≡ length ys
    → sections opening kind xs ≡ sections opening kind ys
sections-length opening kind [] [] h = refl
sections-length opening kind [] (y ∷ ys) h = absurd (length-no (length ys) h)
sections-length opening kind (x ∷ xs) [] h = absurd (no_length (length xs) h)
sections-length opening kind (x ∷ xs) (y ∷ ys) h =
    ap (λ s. s ∷ []) (section-length opening kind (x ∷ xs) (y ∷ ys) h)

-- The text of a policy does not depend on what its roots are called. Take two restricted profiles with
-- the same network policy, and two contexts. Where they have as many readable roots once repeats in a
-- row are dropped, as many writable roots, and as many runtime roots of each kind, the policies are one
-- text: a root reaches the sandbox only as the value of a parameter.
pub build_seatbelt_policy-length :
    (base_policy platform_defaults : String) (r w r' w' : List String) (n : NetworkPolicy)
    (ctx ctx' : SandboxPathContext)
    → length (all_readable (managed (restricted r w) n) ctx)
      ≡ length (all_readable (managed (restricted r' w') n) ctx')
    → length w ≡ length w'
    → length ctx.runtime_readable_roots ≡ length ctx'.runtime_readable_roots
    → length ctx.runtime_writable_roots ≡ length ctx'.runtime_writable_roots
    → (build_seatbelt_policy base_policy platform_defaults (managed (restricted r w) n) ctx).0
      ≡ (build_seatbelt_policy base_policy platform_defaults (managed (restricted r' w') n) ctx').0
unfolding build_seatbelt_policy
build_seatbelt_policy-length base_policy platform_defaults r w r' w' n ctx ctx' hr hw hrr hrw =
    let a = section-length "(allow file-read*\n" "READABLE_ROOT_" _ _ hr in
    let b = section-length "(allow file-write*\n" "WRITABLE_ROOT_" w w' hw in
    let c =
      sections-length "(allow file-read* file-test-existence\n" "RUNTIME_READABLE_ROOT_"
        ctx.runtime_readable_roots ctx'.runtime_readable_roots hrr in
    let d =
      sections-length "(allow file-write*\n" "RUNTIME_WRITABLE_ROOT_" ctx.runtime_writable_roots
        ctx'.runtime_writable_roots hrw in
    elim n [ denied ↦ rw (a, b, c, d) refl | allowed ↦ rw (a, b, c, d) refl ]
