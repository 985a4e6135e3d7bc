-- ===== src/Auth/Interceptor/Agreement.antt =====
-- internal/auth/grpc.go: which clients a server accepts.
use gearshare.Prelude.{
  ℕ, ◌≤◌, ◌≡◌, refl, sym, ap, ◌∙◌, false, some, List, [], ◌∷◌, ◌++◌, arith, All, All-map,
  All-append, Bool-cases, inl, inr, same, same_refl, same→≡, if◌then◌else◌, String, drop,
}
use gearshare.Prelude.Text.{codes}
use gearshare.Codec.Base64.{encode_std}
use gearshare.Codec.Base64.RoundTrip.{IsByte, encode_std-injective, encode_std-All}
use gearshare.Codec.Scan.{is_space}
use gearshare.Auth.Interceptor.{
  trim_start, trim_end, trim_space, credential, intercept, client_intercept,
}

-- A text whose last part is not empty and has no space in it ends where it did.
trim_end-solid : (s : List ℕ) → All (λ c. is_space c ≡ false) s → trim_end s ≡ s
unfolding trim_end
trim_end-solid [] h = refl
trim_end-solid (c ∷ []) h = ground (arith, h.0)
trim_end-solid (c ∷ d ∷ s) h = rw (trim_end-solid (d ∷ s) h.1) refl

trim_end-before :
    (p : List ℕ) (c : ℕ) (s : List ℕ)
    → trim_end (c ∷ s) ≡ c ∷ s
    → trim_end (p ++ c ∷ s) ≡ p ++ c ∷ s
unfolding trim_end
trim_end-before [] c s h = h
trim_end-before (d ∷ []) c s h = rw h refl
trim_end-before (d ∷ e ∷ p) c s h = rw (trim_end-before (e ∷ p) c s h) refl

encoded-cons : (a : ℕ) (s : List ℕ) → (c : ℕ) × (t : List ℕ) × (encode_std (a ∷ s) ≡ c ∷ t)
unfolding encode_std
encoded-cons a [] = (_, _, refl)
encoded-cons a (b ∷ []) = (_, _, refl)
encoded-cons a (b ∷ c ∷ s) = (_, _, refl)

pair-cons : (user pass : List ℕ) → (a : ℕ) × (s : List ℕ) × (user ++ b':' ∷ pass ≡ a ∷ s)
pair-cons [] pass = (_, _, refl)
pair-cons (a ∷ user) pass = (_, _, refl)

solid : (c : ℕ) → (43 ≤ c) × (c ≤ 122) → is_space c ≡ false
solid c h = ground (arith, h)

trim-credential :
    (user pass : List ℕ)
    → All IsByte user
    → All IsByte pass
    → trim_space (credential user pass) ≡ credential user pass
unfolding trim_space credential trim_start
trim-credential user pass hu hp =
    let bytes = All-append IsByte user (b':' ∷ pass) hu (omega arith, hp) in
    let text = encode_std (user ++ b':' ∷ pass) in
    let chars = All-map solid text (encode_std-All (user ++ b':' ∷ pass) bytes) in
    let (a, s, e) = pair-cons user pass in
    let (c, t, f) = encoded-cons a s in
    let g : text ≡ c ∷ t = ap encode_std e ∙ f in
    rw g
      (trim_end-before (codes "Basic ") c t (sym (ap trim_end g) ∙ (trim_end-solid text chars ∙ g)))

same-encoded :
    (a b : List ℕ)
    → All IsByte a
    → All IsByte b
    → same (codes "Basic " ++ encode_std a) (codes "Basic " ++ encode_std b) ≡ same a b
same-encoded a b ha hb =
    let basic = codes "Basic " in
    elim (Bool-cases (same a b)) [
      | inl p ↦
          let e : a ≡ b = same→≡ a b p in
          rw e (same_refl (basic ++ encode_std b) ∙ sym (same_refl b))
      | inr p ↦ elim (Bool-cases (same (basic ++ encode_std a) (basic ++ encode_std b))) [
        | inr q ↦ q ∙ sym p
        | inl q ↦
            let e = same→≡ (basic ++ encode_std a) (basic ++ encode_std b) q in
            let f : a ≡ b = encode_std-injective a b ha hb (ap (drop 6) e) in
            absurd (ground (arith, p, ap (same a) (sym f), same_refl a))
      ]
    ]

-- A server that expects one user name and password accepts the call of a client that adds its credential to
-- metadata without one exactly if the two pairs, each joined by a colon, are the same bytes; then the
-- handler runs, and otherwise the call is refused.
pub intercept-client :
    (user pass user' pass' : List ℕ) {A : Type 0} (refused : String → A) (handled : A)
    → All IsByte user
    → All IsByte pass
    → All IsByte user'
    → All IsByte pass'
    → intercept user pass (some (client_intercept user' pass' [])) refused handled ≡ (
        if same (user' ++ b':' ∷ pass') (user ++ b':' ∷ pass)
        then handled
        else refused "invalid credentials")
unfolding intercept client_intercept credential
intercept-client user pass user' pass' refused handled hu hp hu' hp' =
    rw
      (
        trim-credential user' pass' hu' hp',
        same-encoded (user' ++ b':' ∷ pass') (user ++ b':' ∷ pass)
            (All-append IsByte user' (b':' ∷ pass') hu' (omega arith, hp'))
            (All-append IsByte user (b':' ∷ pass) hu (omega arith, hp)),
      )
      refl
