-- ===== src/Memory.antt =====
-- Long-term memory: the models of src/assistant/memory/store/models.py and
-- src/assistant/memory/write/models.py, the paths of src/assistant/memory/store/paths.py, and the
-- directory of artifacts. A moment stands for its text in ISO format, and a confidence is a number
-- of some unit: both are only compared.
pub mod Dedup
pub mod Indexes
pub mod Samples
pub mod Write
use Prim.Native.Char.{Char, code}
use Prim.Native.String.{◌++◌ as ◌&◌}
use private_claw.Prelude.{
  ℕ, String, Option, some, none, Bool, true, false, List, [], ◌∷◌, ◌++◌, leb, ◌||◌, ◌&&◌, not, ◌==◌,
  nat_eq, if◌then◌else◌,
}
use private_claw.Prelude.Dict.{Dict}
use private_claw.Prelude.Texts.{starts_with}
use private_claw.Store.Files.{Document, malformed, holds}

pub data MemoryType : Type 0 where
  profile preferences projects tasks facts summaries : MemoryType

abbrev pub value : MemoryType → String
value profile = "profile"
value preferences = "preferences"
value projects = "projects"
value tasks = "tasks"
value facts = "facts"
value summaries = "summaries"

abbrev pub is_projects : MemoryType → Bool
is_projects projects = true
is_projects _ = false

pub record MemoryFrontmatter : Type 0 where
  pub memory_id : String
  pub memory_type : MemoryType
  pub tags : List String
  pub entities : List String
  pub priority : ℕ
  pub confidence : ℕ
  pub updated_at : ℕ
  pub last_used_at : Option ℕ
  pub created_at : Option ℕ

pub record MemoryArtifact : Type 0 where
  pub frontmatter : MemoryFrontmatter
  pub body : String

pub record MemoryUpdateIntentCandidate : Type 0 where
  pub tags : List String
  pub entities : List String
  pub priority : ℕ
  pub confidence : ℕ
  pub body_markdown : String

pub data MemoryUpdateAction : Type 0 where
  upsert_action delete_action touch_action : MemoryUpdateAction

pub record MemoryUpdateIntent : Type 0 where
  pub intent_id : String
  pub action : MemoryUpdateAction
  pub memory_type : MemoryType
  pub memory_id : Option String
  pub candidate : Option MemoryUpdateIntentCandidate

pub data WriteStatus : Type 0 where
  written updated deleted touched skipped_low_confidence skipped_dedup_merged : WriteStatus
  idempotent_noop rejected_invalid : WriteStatus

pub record WriteAudit : Type 0 where
  pub intent_id : String
  pub status : WriteStatus
  pub memory_id : Option String
  pub reason : String

-- the artifact files by their paths below the memory directory, in the order in which a directory
-- is listed
abbrev pub Files : Type 0
Files = Dict String (Document MemoryArtifact)

abbrev is_allowed : Char → Bool
is_allowed c =
    (leb b'a' (code c) && leb (code c) b'z')
    || (leb b'A' (code c) && leb (code c) b'Z')
    || (leb b'0' (code c) && leb (code c) b'9')
    || code c == b'_'
    || code c == b'-'
    || code c == b'.'

abbrev all_allowed : String → Bool
all_allowed String.[] = true
all_allowed (String.◌∷◌ c s) = is_allowed c && all_allowed s

-- `".." in s`
abbrev has_dots : String → Bool
has_dots String.[] = false
has_dots (String.◌∷◌ c s) = starts_with ".." (String.◌∷◌ c s) || has_dots s

-- `_validate_path_safe` does not raise; no slash is among the characters that are allowed
unfoldable pub is_path_safe : String → Bool
is_path_safe String.[] = false
is_path_safe (String.◌∷◌ c s) = not (has_dots (String.◌∷◌ c s)) && all_allowed (String.◌∷◌ c s)

-- none for the ValueError
unfoldable pub artifact_path : MemoryType → String → Option String
unfolding is_path_safe
artifact_path memory_type memory_id =
    if is_path_safe memory_id then some (value memory_type & "/" & memory_id & ".md") else none

abbrev cons_parsed : Document MemoryArtifact → List MemoryArtifact → List MemoryArtifact
cons_parsed malformed rest = rest
cons_parsed (holds a) rest = a ∷ rest

-- the artifacts of a category that can be parsed
unfoldable pub in_category : MemoryType → Files → List MemoryArtifact
in_category memory_type [] = []
in_category memory_type ((path, document) ∷ files) =
    let rest = in_category memory_type files in
    if starts_with (value memory_type & "/") path then cons_parsed document rest else rest

unfoldable pub scan_artifacts : Files → List MemoryArtifact
unfolding in_category
scan_artifacts files =
    in_category profile files
    ++ in_category preferences files
    ++ in_category projects files
    ++ in_category tasks files
    ++ in_category facts files
    ++ in_category summaries files
