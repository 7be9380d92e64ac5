-- ===== src/Indexing/Provenance/RoundTrip.antt =====
-- A citation that was encoded is decoded to its payload.
use graph_blizz.Prelude.{
  ℕ, zero, suc, ◌+◌, ◌-◌, ◌%◌, ◌<◌, ◌≡◌, refl, sym, ap, ◌∙◌, arith, true, some, [], ◌∷◌, ◌++◌, Text,
  codes, is_some, length, uuid_text, text_eq, ok,
}
use graph_blizz.Json.{text, object, field_of}
use graph_blizz.Documents.Models.{Document}
use graph_blizz.Documents.World.{after_prefix}
use graph_blizz.Parsers.Models.{ParsedChunk}
use graph_blizz.Indexing.Provenance.{
  Codec, prefix, payload_of, rstrip_char, repeated, padded, encode_chunk_provenance,
  decode_chunk_provenance, encoded_checked, raw_checked, payload_checked, identified,
}

after_prefix-append : (front rest : Text) → after_prefix front (front ++ rest) ≡ some rest
unfolding after_prefix
after_prefix-append [] rest = refl
after_prefix-append (c ∷ front) rest = ground (arith, after_prefix-append front rest)

rstrip_char-repeated : (c k : ℕ) → rstrip_char c (repeated c k) ≡ []
unfolding rstrip_char
rstrip_char-repeated c zero = refl
rstrip_char-repeated c (suc k) = ground (arith, rstrip_char-repeated c k)

rstrip_char-append :
    (c k : ℕ) (body : Text) → rstrip_char c (body ++ repeated c k) ≡ rstrip_char c body
unfolding rstrip_char
rstrip_char-append c k [] = rstrip_char-repeated c k
rstrip_char-append c k (d ∷ body) = rw (rstrip_char-append c k body) refl

length-repeated : (c k : ℕ) → length (repeated c k) ≡ k
length-repeated c zero = refl
length-repeated c (suc k) = omega (arith, length-repeated c k)

-- Base 64: a body with at most three `=` behind it, to a multiple of four characters.
pub record IsPadded (encoded : Text) : Type 0 where
  pub body : Text
  pub count : ℕ
  pub few : count < 4
  pub same : encoded ≡ body ++ repeated 61 count
  pub bare : rstrip_char 61 body ≡ body
  pub whole : (length body + count) % 4 ≡ 0

pad_count : (n k : ℕ) → k < 4 → (n + k) % 4 ≡ 0 → (4 - n % 4) % 4 ≡ k
pad_count n k h e = omega (arith, h, e)

padded-rstrip_char : (encoded : Text) → IsPadded encoded → padded (rstrip_char 61 encoded) ≡ encoded
unfolding padded
padded-rstrip_char encoded p =
    let stripped = (ap (rstrip_char 61) p.same) ∙ (rstrip_char-append 61 p.count p.body) ∙ p.bare in
    (ap padded stripped)
    ∙ (ap (λ n. p.body ++ repeated 61 n) (pad_count (length p.body) p.count p.few p.whole))
    ∙ (sym p.same)

-- What the libraries promise of one payload: base 64 and JSON lead back, and the identifier of the
-- document is read from its text.
pub record IsCodec (codec : Codec) (document : Document) (revision : ℕ) (chunk : ParsedChunk)
    : Type 0 where
  pub shaped : IsPadded (codec.encode64 (codec.dumps (object (payload_of document revision chunk))))
  pub decoded :
      codec.decode64 (codec.encode64 (codec.dumps (object (payload_of document revision chunk))))
      ≡ some (codec.dumps (object (payload_of document revision chunk)))
  pub loaded :
      codec.loads (codec.dumps (object (payload_of document revision chunk)))
      ≡ some (object (payload_of document revision chunk))
  pub named : is_some (codec.uuid_of (uuid_text document.id)) ≡ true

payload-document_id :
    (document : Document) (revision : ℕ) (chunk : ParsedChunk)
    → field_of (codes "document_id") (payload_of document revision chunk)
      ≡ some (text (uuid_text document.id))
unfolding field_of payload_of text_eq
payload-document_id document revision chunk = refl

-- If base 64 and JSON lead back and base 64 pads to a multiple of four characters, decoding the
-- citation of a chunk gives exactly the payload that was encoded, although the padding was stripped.
pub decode_chunk_provenance-encode_chunk_provenance :
    (codec : Codec) (document : Document) (revision : ℕ) (chunk : ParsedChunk)
    → IsCodec codec document revision chunk
    → decode_chunk_provenance codec (text (encode_chunk_provenance codec document revision chunk))
      ≡ ok (some (payload_of document revision chunk))
unfolding decode_chunk_provenance encode_chunk_provenance
decode_chunk_provenance-encode_chunk_provenance codec document revision chunk good =
    let payload = payload_of document revision chunk in
    let encoded = codec.encode64 (codec.dumps (object payload)) in
    (ap (encoded_checked codec) (after_prefix-append prefix (rstrip_char 61 encoded)))
    ∙ (ap (λ t. raw_checked codec (codec.decode64 t)) (padded-rstrip_char encoded good.shaped))
    ∙ (ap (raw_checked codec) good.decoded)
    ∙ (ap (payload_checked codec) good.loaded)
    ∙ (ap (identified codec payload) (payload-document_id document revision chunk))
    ∙ (rw good.named refl)
