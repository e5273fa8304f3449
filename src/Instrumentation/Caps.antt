-- ===== src/Instrumentation/Caps.antt =====
-- How much the hooks write.
use whs_dynamic.Base.{
  ℕ, ◌≤◌, List, [], ◌∷◌, ◌++◌, Option, none, some, ◌≡◌, refl, Text, take, length, length-take,
  filter_by, map, codes, arith,
}
use whs_dynamic.Instrumentation.{
  Attempt, Log, Moment, accessed, audited, write, access_rows, audit_row, attempt_of, size_of,
  first_argument, second_argument, shortened, compiled,
}

abbrev pub env_tries : Text → Moment → List Attempt → List Attempt
env_tries stage m rest = elim m.action [
  | accessed a ↦ map (attempt_of stage m) (access_rows a) ++ rest
  | audited a ↦ rest
]

abbrev pub code_tries : Text → Moment → List Attempt → List Attempt
code_tries stage m rest = elim m.action [
  | accessed a ↦ rest
  | audited a ↦ elim (audit_row a) [ none ↦ rest | some r ↦ attempt_of stage m r ∷ rest ]
]

-- The rows that the hooks try to write to each log.
abbrev pub env_attempts : Text → List Moment → List Attempt
env_attempts stage [] = []
env_attempts stage (m ∷ ms) = env_tries stage m (env_attempts stage ms)

abbrev pub code_attempts : Text → List Moment → List Attempt
code_attempts stage [] = []
code_attempts stage (m ∷ ms) = code_tries stage m (code_attempts stage ms)

abbrev pub written : List Attempt → List Attempt
written = filter_by (λ a. a.writable)

write_all : List Attempt → Log → Log
write_all [] l = l
write_all (a ∷ rest) l = write_all rest (write a l)

-- The size that is logged for a source is that of its logged head, hence never more than 200.
pub audit_row-compiled :
    (filename source : Option Text) (co_filename : Option Text)
    → (head : Option Text) × (size : ℕ) × (audit_row record {
      event = codes "compile";
      arguments = source ∷ filename ∷ [];
      co_filename = co_filename;
    }
        ≡ some (compiled (shortened 200 filename) head size))
      × (size ≡ size_of head)
      × (size ≤ 200)
unfolding audit_row first_argument second_argument
audit_row-compiled filename none co_filename = (none, 0, refl, refl, omega arith)
audit_row-compiled filename (some s) co_filename =
    (some (take 200 s), length (take 200 s), refl, refl, omega (arith, length-take 200 s))
