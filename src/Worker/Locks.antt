-- ===== src/Worker/Locks.antt =====
-- backend/worker/service.py: the key of the advisory lock that a worker holds on a document.
use graph_blizz.Prelude.{
  ℕ, ◌-◌, ◌%◌, ◌<◌, ◌≡◌, arith, ltb, if◌then◌else◌, ℤ, pos, negsuc, ap, sym, ◌∙◌, ◌↔◌,
}

-- `key & ((1 << 64) - 1)`, then the number of that bit pattern as a signed 64-bit integer.
unfoldable pub signed_64 : ℕ → ℤ
signed_64 key = if ltb key 9223372036854775808 then pos key else negsuc (18446744073709551615 - key)

unfoldable pub document_lock_key : ℕ → ℤ
document_lock_key document_id = signed_64 (document_id % 18446744073709551616)

-- The range of PostgreSQL's bigint.
abbrev pub IsBigint : ℤ → Type 0
IsBigint (pos n) = n < 9223372036854775808
IsBigint (negsuc n) = n < 9223372036854775808

signed_64-IsBigint : (key : ℕ) → key < 18446744073709551616 → IsBigint (signed_64 key)
unfolding signed_64
signed_64-IsBigint key h = ground arith

-- The bits of a key, back from the integer.
abbrev unsigned_64 : ℤ → ℕ
unsigned_64 (pos n) = n
unsigned_64 (negsuc n) = 18446744073709551615 - n

unsigned_64-signed_64 : (key : ℕ) → key < 18446744073709551616 → unsigned_64 (signed_64 key) ≡ key
unfolding signed_64
unsigned_64-signed_64 key h = ground arith

bits_below : (id : ℕ) → id % 18446744073709551616 < 18446744073709551616
bits_below id = omega arith

-- The lock key of any document is in the range of PostgreSQL's bigint, and two documents have the
-- same key exactly if the last 64 bits of their identifiers are the same.
pub document_lock_key_lem :
    (a b : ℕ)
    → IsBigint (document_lock_key a)
      × ((document_lock_key a ≡ document_lock_key b)
          ↔ (a % 18446744073709551616 ≡ b % 18446744073709551616))
unfolding document_lock_key
document_lock_key_lem a b = (
  signed_64-IsBigint (a % 18446744073709551616) (bits_below a),
  (
    λ same.
        (sym (unsigned_64-signed_64 (a % 18446744073709551616) (bits_below a)))
        ∙ (ap unsigned_64 same)
        ∙ (unsigned_64-signed_64 (b % 18446744073709551616) (bits_below b)),
    λ same. ap signed_64 same,
  ),
)
