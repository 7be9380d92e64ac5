-- ===== src/Indexing/Samples.antt =====
-- A small environment, a document with its stored source, and a world that holds them.
use graph_blizz.Prelude.{ℕ, none, some, true, List, [], ◌∷◌, Text, codes, Option, ◌++◌}
use graph_blizz.Errors.{connection_error}
use graph_blizz.Json.{object, Fields}
use graph_blizz.Documents.Models.{DocumentStatus, Document, DocumentRevision}
use graph_blizz.Documents.Db.{Db, WorkspaceRow, active, DocumentRow, document_of}
use graph_blizz.Documents.World.{World, Faults}
use graph_blizz.Documents.Repository.{new_document, new_revision}
use graph_blizz.Jobs.Rows.{JobRow}
use graph_blizz.Parsers.Models.{ParsedChunk, ParsedDocument}
use graph_blizz.Parsers.TreeSitter as TreeSitter
use graph_blizz.Security.Models.{user, all_owner_permissions, AuthorizedWorkspaceContext}
use graph_blizz.Indexing.Provenance.{Codec, payload_of}
use graph_blizz.Indexing.Service.{Environment}

-- A document at the status and the active revision that are given, with one revision.
abbrev pub row_at : DocumentStatus → Option ℕ → DocumentRow
row_at status revision = record (new_document 5 8 1 (codes "readme") "a.txt" "text/plain" true) {
  status = status;
  active_revision = revision;
}

abbrev pub first_revision : DocumentRevision
first_revision = new_revision 5 8 1 (codes "s3://b/k") "abd"

abbrev pub document_at : DocumentStatus → Option ℕ → Document
document_at status revision = document_of (row_at status revision) first_revision

abbrev pub code_chunk : ParsedChunk
code_chunk = record {
  content = codes "x";
  index = 0;
  metadata = (codes "language", codes "go") ∷ [];
}

abbrev pub code : ParsedDocument
code = record {
  content = codes "x";
  chunks = code_chunk ∷ [];
  metadata = (codes "language", codes "go") ∷ [];
}

-- Codecs for the one payload that is given.
abbrev pub codec_for : Fields → Codec
codec_for payload = record {
  dumps = λ value. codes "A";
  loads = λ raw. some (object payload);
  encode64 = λ raw. codes "QQ==";
  decode64 = λ encoded. some (codes "A");
  uuid_of = λ id. some 8;
}

abbrev pub content_id : Text → Text → Text
content_id content prefix = prefix ++ content

abbrev pub environment : Environment
environment = record {
  tools = record {
    library = record { lower = λ name. name; suffix = λ name. codes ".txt" };
    decode = λ bytes. some bytes;
    codec = record { encode = λ content. content; decode = λ bytes. bytes };
    limit = 2;
    syntax_tree = λ language source. (true, TreeSitter.none_left);
  };
  codec = codec_for (payload_of (document_at DocumentStatus.ready (some 1)) 1 code_chunk);
  content_id = content_id;
  digest = λ profile. profile;
  bucket = codes "b";
  clock = λ n. 20;
}

abbrev pub workspace : WorkspaceRow
workspace = record {
  id = 1;
  name = "demo";
  slug = "demo";
  storage_key = codes "w1";
  status = active;
  created_at = 0;
  updated_at = 0;
  description = none;
  index_schema_version = 1;
  embedding_profile = codes "bge";
}

abbrev pub context : AuthorizedWorkspaceContext
context = record {
  principal_id = "owner";
  principal_type = user;
  workspace_id = 1;
  storage_key = codes "w1";
  permissions = all_owner_permissions;
  index_schema_version = 1;
  embedding_profile = some (codes "bge");
}

abbrev pub db_with : DocumentRow → List JobRow → Db
db_with d jobs = record {
  workspaces = workspace ∷ [];
  documents = d ∷ [];
  revisions = first_revision ∷ [];
  jobs = jobs;
}

abbrev pub world_with : Db → World
world_with db = record {
  committed = db;
  working = db;
  objects = (codes "k", codes "hi") ∷ [];
  stored_key = none;
  index_calls = [];
  calls = 0;
}

abbrev pub quiet : Faults
quiet n = none

-- Every call raises.
abbrev pub failing : Faults
failing n = some connection_error
