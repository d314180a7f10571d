-- ===== src/Android/Links.antt =====
-- `Verify` of aka.go: the chain it accepts and the certificate it reads.
use npvtunnel_creator_server.Base.{
  ℕ, suc, ◌≡◌, refl, ap, List, [], ◌∷◌, ◌++◌, Option, none, some, Bytes, reverse, inl, inr, arith,
  Option-cases, All,
}
use npvtunnel_creator_server.Android.{Certificate, Certificates}
use npvtunnel_creator_server.Android.Verify.{find_extension, locate, found_in, check_links}

-- Each certificate is signed by the next.
abbrev pub Signed : Certificates → List Certificate → Type 0
Signed x (child ∷ parent ∷ certs) =
    (x.check_signature_from child parent ≡ none) × Signed x (parent ∷ certs)
Signed x _ = Unit

abbrev pub NoExtension : Certificate → Type 0
NoExtension cert = find_extension cert.extensions ≡ none

-- A certificate of the chain with the attestation extension; none nearer the root has it.
pub record NearestRoot (chain : List Certificate) (ext : Bytes) (cert : Certificate) : Type 0 where
  pub front : List Certificate
  pub back : List Certificate
  pub stands : chain ≡ front ++ cert ∷ back
  pub carries : find_extension cert.extensions ≡ some ext
  pub none_nearer : All NoExtension back

pub check_links-Signed :
    (x : Certificates) (i : ℕ) (certs : List Certificate)
    → check_links x i certs ≡ none
    → Signed x certs
unfolding check_links
check_links-Signed x i [] h = tt
check_links-Signed x i (cert ∷ []) h = tt
check_links-Signed x i (child ∷ parent ∷ certs) h =
    ground (arith, check_links-Signed x (suc i) (parent ∷ certs))

-- The search goes on to a last certificate only if it has found nothing.
abbrev or_last : Option (Bytes × Certificate) → Certificate → Option (Bytes × Certificate)
or_last none cert = found_in cert none (find_extension cert.extensions)
or_last (some p) cert = some p

locate-snoc :
    (certs : List Certificate) (cert : Certificate)
    → locate (certs ++ cert ∷ []) ≡ or_last (locate certs) cert
unfolding locate
locate-snoc [] cert = refl
locate-snoc (c ∷ certs) cert = ground (arith, locate-snoc certs cert)

locate-reverse-none :
    (chain : List Certificate) → locate (reverse chain) ≡ none → All NoExtension chain
locate-reverse-none [] h = tt
locate-reverse-none (cert ∷ chain) h =
    let step = locate-snoc (reverse chain) cert in
    (ground arith, locate-reverse-none chain (ground arith))

pub locate-reverse-some :
    (chain : List Certificate) (ext : Bytes) (cert : Certificate)
    → locate (reverse chain) ≡ some (ext, cert)
    → NearestRoot chain ext cert
locate-reverse-some [] ext cert h = unfold locate in cc
locate-reverse-some (c ∷ chain) ext cert h =
    let step = locate-snoc (reverse chain) c in
    elim (Option-cases (locate (reverse chain))) [
      | inl none_later ↦ record {
        front = [];
        back = chain;
        stands = ground arith;
        carries = ground arith;
        none_nearer = locate-reverse-none chain none_later;
      }
      | inr ((e, k), found) ↦
          let n = locate-reverse-some chain ext cert (ground arith) in
          record {
            front = c ∷ n.front;
            back = n.back;
            stands = ap (◌∷◌ c) n.stands;
            carries = n.carries;
            none_nearer = n.none_nearer;
          }
    ]
