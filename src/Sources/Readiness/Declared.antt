-- ===== src/Sources/Readiness/Declared.antt =====
-- What `verify_declared_image` of image_processor/sources/readiness.py checks.
use Prim.Native.String.{String}
use image_processor.Base.{
  ℕ, ℤ, pos, negsuc, ◌≡◌, refl, sym, inl, inr, true, Option, none, some, ◌==◌, ==_iff, arith,
  Bool-cases,
}
use image_processor.Decision.{Json, Fields, null, boolean, number, text, array, object, get_or_null}
use image_processor.Sources.Readiness.{
  Signature, Look, Reader, verified, mismatch, sha256_mismatch, bytes_mismatch, declared_size,
  declared_digest, digests_agree, check_size, check_declared, verify_declared_image,
}

-- A check that passed: the size and the digest are those declared and those of the file.
abbrev pub Matches :
    {Number : Type 0} → Reader Number → Look Number → Json Number → ℕ → String → Type 0
Matches reader look (object image) size digest =
    (declared_size reader (get_or_null "bytes" image) ≡ some (pos size))
    × ((declared : String) × (declared_digest (get_or_null "sha256" image) ≡ some declared)
        × (digests_agree digest declared ≡ true))
    × ((signature : Signature) × (look.signature ≡ some signature) × (signature.size ≡ size))
    × (look.digest ≡ some digest)
Matches reader look _ size digest = ⊥

check_size-verified :
    (n size : ℕ) (sha digest actual : String) (f : Signature)
    → check_size (pos n) sha (some f) (some actual) ≡ verified size digest
    → (f.size ≡ n) × (digests_agree actual sha ≡ true) × (n ≡ size) × (actual ≡ digest)
check_size-verified n size sha digest actual f e = elim (Bool-cases (f.size == n)) [
  | inl same_size ↦ elim (Bool-cases (digests_agree actual sha)) [
    | inl agree ↦
        let k : verified n actual ≡ verified size digest = simp (same_size, agree) at e in
        ((==_iff f.size n).0 same_size, agree, cc, cc)
    | inr differ ↦ absurd (
        let k : mismatch sha256_mismatch ≡ verified size digest = simp (same_size, differ) at e in
        cc)
  ]
  | inr other ↦
      absurd (let k : mismatch bytes_mismatch ≡ verified size digest = simp other at e in cc)
]

declared-Matches :
    {Number : Type 0} (reader : Reader Number) (look : Look Number) (image : Fields Number)
    (size : ℕ) (digest : String) (bytes : Option ℤ) (sha : Option String)
    (signature : Option Signature) (actual : Option String)
    → declared_size reader (get_or_null "bytes" image) ≡ bytes
    → declared_digest (get_or_null "sha256" image) ≡ sha
    → look.signature ≡ signature
    → look.digest ≡ actual
    → check_declared bytes sha signature actual ≡ verified size digest
    → Matches reader look (object image) size digest
declared-Matches reader look image size digest none sha signature actual b s l d e = absurd cc
declared-Matches reader look image size digest (some n) none signature actual b s l d e = absurd cc
declared-Matches reader look image size digest (some n) (some sha) none actual b s l d e = absurd cc
declared-Matches reader look image size digest (some (negsuc n)) (some sha) (some f) actual b s l d
      e =
    absurd cc
declared-Matches reader look image size digest (some (pos n)) (some sha) (some f) none b s l d e =
    ground (arith, e)
declared-Matches reader look image size digest (some (pos n)) (some sha) (some f) (some a) b s l d
      e =
    let w = check_size-verified n size sha digest a f e in
    (rw (sym w.2) b, (sha, s, rw (sym w.3) w.1), (f, l, rw (sym w.2) w.0), rw (sym w.3) d)

pub verify_declared_image-Matches :
    {Number : Type 0} (reader : Reader Number) (look : Look Number) (image : Json Number) (size : ℕ)
    (digest : String)
    → verify_declared_image reader look image ≡ verified size digest
    → Matches reader look image size digest
unfolding verify_declared_image
verify_declared_image-Matches reader look (object image) size digest e =
    declared-Matches reader look image size digest
      (declared_size reader (get_or_null "bytes" image))
      (declared_digest (get_or_null "sha256" image)) look.signature look.digest refl refl refl refl
      e
verify_declared_image-Matches reader look null size digest e = absurd cc
verify_declared_image-Matches reader look (boolean b) size digest e = absurd cc
verify_declared_image-Matches reader look (number n) size digest e = absurd cc
verify_declared_image-Matches reader look (text s) size digest e = absurd cc
verify_declared_image-Matches reader look (array items) size digest e = absurd cc
