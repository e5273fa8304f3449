-- ===== src/Pipeline/Metadata.antt =====
-- `_parse_pyproject_python_and_deps` and `read_package_metadata` of backend/app/package.py. The parsers of
-- TOML and of the mail headers are arguments, and so is the split of a requirement at its first
-- separator.
use whs_dynamic.Base.{
  List, [], ◌∷◌, ◌++◌, Option, none, some, Bool, true, false, Text, codes, lower, ◌==◌, nat_eq,
  list_eq, distinct, sort_by, if◌then◌else◌,
}
use whs_dynamic.Pipeline.Artifacts.{ends_in, next_or}

-- A version in poetry's table of dependencies: a text, a table with a version or without, or another value.
pub data Spec : Type 0 where
  plain : Text → Spec
  table : Option Text → Spec
  other : Spec

-- What is read of a pyproject.toml.
pub record Pyproject : Type 0 where
  pub requires_python : Option Text
  pub dependencies : List Text
  pub poetry : List (Text × Spec)

unfoldable pub version_of : Spec → Option Text
version_of (plain s) = some s
version_of (table v) = v
version_of other = none

-- `f"{dep_name}{version}" if version else dep_name`
unfoldable pub requirement_of : Text → Option Text → Text
requirement_of dep_name none = dep_name
requirement_of dep_name (some version) = dep_name ++ version

-- The loop over poetry's dependencies.
unfoldable pub poetry_requirements : List (Text × Spec) → List Text
unfolding version_of requirement_of
poetry_requirements [] = []
poetry_requirements ((dep_name, spec) ∷ deps) =
    let rest = poetry_requirements deps in
    if lower dep_name == codes "python"
    then rest
    else requirement_of dep_name (version_of spec) ∷ rest

-- `poetry_deps.get("python")`, of a text.
unfoldable pub poetry_python : List (Text × Spec) → Option Text
poetry_python [] = none
poetry_python ((dep_name, spec) ∷ deps) =
    let rest = poetry_python deps in
    if dep_name == codes "python" then elim spec [ plain s ↦ some s | _ ↦ none ] else rest

-- `_parse_pyproject_python_and_deps`, of a file that could be parsed, if there is one.
unfoldable pub pyproject_python_and_deps : Option Pyproject → Option Text × List Text
unfolding poetry_requirements poetry_python
pyproject_python_and_deps none = (none, [])
pyproject_python_and_deps (some p) = (
  elim p.requires_python [ none ↦ poetry_python p.poetry | some s ↦ some s ],
  elim p.dependencies [ [] ↦ poetry_requirements p.poetry | d ∷ ds ↦ d ∷ ds ],
)

-- The member of the archive with the metadata: of a wheel or a zip file, and of a tar file.
unfoldable pub metadata_member : Bool → List Text → Option Text
metadata_member true names =
    elim (next_or (λ n. ends_in n (codes ".dist-info/METADATA")) names none) [
      | none ↦ next_or (λ n. ends_in n (codes "PKG-INFO")) names none
      | some n ↦ some n
    ]
metadata_member false names = next_or (λ n. ends_in n (codes "PKG-INFO")) names none

-- The fields of the headers that are used.
pub record Headers : Type 0 where
  pub name : Option Text
  pub version : Option Text
  pub requires_dist : List Text
  pub requires_python : Option Text

pub record Metadata : Type 0 where
  pub name : Option Text
  pub version : Option Text
  pub declared_dependencies : List Text
  pub requires_dist_raw : List Text
  pub raw_available : Bool
  pub requires_python : Option Text

-- The stripped requirements that are not empty, each to its first separator and in lower case.
unfoldable pub requirement_names : (Text → Text) → (Text → Text) → List Text → List Text
requirement_names strip first_part [] = []
requirement_names strip first_part (r ∷ requires) =
    let rest = requirement_names strip first_part requires in
    if strip r == [] then rest else lower (first_part (strip r)) ∷ rest

-- `sorted({...})`
unfoldable pub declared_of : (Text → Text) → (Text → Text) → List Text → List Text
unfolding requirement_names
declared_of strip first_part requires =
    sort_by (λ d. d) (distinct (requirement_names strip first_part requires))

unfoldable pub or_value : Option Text → Option Text → Option Text
or_value none s = s
or_value (some []) s = s
or_value (some (c ∷ t)) s = some (c ∷ t)

unfoldable pub or_list : List Text → List Text → List Text
or_list [] ds = ds
or_list (r ∷ rs) ds = r ∷ rs

-- `read_package_metadata`, of the headers and the pyproject.toml that could be read.
unfoldable pub read_package_metadata :
    (Text → Text) → (Text → Text) → Option Headers → Option Pyproject → Metadata
unfolding declared_of or_value or_list
read_package_metadata strip first_part headers pyproject =
    let (python, deps) = pyproject_python_and_deps pyproject in
    elim headers [
      | none ↦ record {
        name = none;
        version = none;
        declared_dependencies = declared_of strip first_part deps;
        requires_dist_raw = deps;
        raw_available = false;
        requires_python = python;
      }
      | some h ↦ record {
        name = h.name;
        version = h.version;
        declared_dependencies = declared_of strip first_part (or_list h.requires_dist deps);
        requires_dist_raw = or_list h.requires_dist deps;
        raw_available = true;
        requires_python = or_value h.requires_python python;
      }
    ]
