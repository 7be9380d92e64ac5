-- ===== src/Indexing/Versions.antt =====
-- backend/index_versions.py: the identity of the data that may stand in one derived index.
use graph_blizz.Prelude.{ℕ, ◌++◌, ◌∷◌, Text, codes, decimal_text, take}

pub record IndexContract : Type 0 where
  pub index_schema_version : ℕ
  pub embedding_profile : Text

-- `digest` is `hashlib.sha256(profile.encode()).hexdigest()`.
unfoldable pub namespace_suffix : (digest : Text → Text) → IndexContract → Text
namespace_suffix digest c =
    codes "i"
    ++ (decimal_text c.index_schema_version ++ (95 ∷ take 16 (digest c.embedding_profile)))
