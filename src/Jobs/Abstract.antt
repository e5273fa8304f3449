-- ===== src/Jobs/Abstract.antt =====
-- The server of backend/app/main.py as a function of the id: the job in flight and the saved report.
use mathlib.Core.Path.{fun_ext, subst, sym, ◌∙◌, ap}
use whs_dynamic.Base.{
  ◌+◌, Option, none, some, ◌≡◌, ◌↔◌, refl, [], ◌∷◌, inl, inr, Text, ◌==◌, nat_eq, list_eq,
  list_beq_iff, List, find, put, remove, find-put, find-put_other, find-remove, find-remove_other,
  Bool-cases, Option-cases, arith, if◌then◌else◌,
}
use whs_dynamic.Jobs.{
  Job, Server, Request, Status, Report, Found, report, job, queued_job, extra_stages,
  create_analysis, update_job, save_report, get_analysis, delete_analysis,
}
use whs_dynamic.Jobs.Requests.{delete_analysis_inv}

abbrev pub Entry : Type 0
Entry = Option Job × Option Report

abbrev pub View : Type 0
View = Text → Entry

abbrev pub view : Server → View
view s id = (find id s.jobs, find id s.saved)

-- A function that is changed at one id.
abbrev pub change : Text → (Entry → Entry) → View → View
change id f v k = if id == k then f (v k) else v k

-- What is answered of an entry: the report before the job.
abbrev pub answer : Text → Entry → Option Found
answer id (j, some r) = some (report r)
answer id (some j, none) = some (job id j)
answer id (none, none) = none

find-put_if :
    {V : Type 0} (id k : Text) (v : V) (d : List (Text × V))
    → find k (put id v d) ≡ (if id == k then some v else find k d)
find-put_if id k v d = elim (Bool-cases (id == k)) [
  | inl q ↦ let same : id ≡ k = (list_beq_iff id k).0 q in rw (q, same) (find-put k v d)
  | inr q ↦ rw q (find-put_other k id v d q)
]

find-remove_if :
    {V : Type 0} (id k : Text) (d : List (Text × V))
    → find k (remove id d) ≡ (if id == k then none else find k d)
find-remove_if id k d = elim (Bool-cases (id == k)) [
  | inl q ↦ let same : id ≡ k = (list_beq_iff id k).0 q in rw (q, same) (find-remove k d)
  | inr q ↦ rw q (find-remove_other k id d q)
]

-- A request or a worker's step that changes the server.
pub data Operation : Type 0 where
  creates : (id : Text) (request : Request) → Operation
  updates : (id : Text) (f : Job → Job) → Operation
  saves : (id : Text) (status : Status) → Operation
  deletes : (id : Text) → Operation

abbrev or_same : Server → Option Server → Server
or_same s none = s
or_same s (some t) = t

-- What the source does; a refused operation changes nothing.
abbrev pub apply_one : Operation → Server → Server
apply_one (creates id request) s = create_analysis id request s
apply_one (updates id f) s = or_same s (update_job id f s)
apply_one (saves id status) s = save_report id status s
apply_one (deletes id) s = or_same s (delete_analysis id s)

abbrev pub apply_all : List Operation → Server → Server
apply_all [] s = s
apply_all (o ∷ os) s = apply_all os (apply_one o s)

abbrev updated : (Job → Job) → Option Job → Option Job
updated f none = none
updated f (some j) = some (f j)

-- What it should do to the function.
abbrev pub intended : Operation → View → View
intended (creates id request) = change id (λ e. (
  some (queued_job request.package_name request.version (5 + extra_stages request.custom_command)),
  e.1,
))
intended (updates id f) = change id (λ e. (updated f e.0, e.1))
intended (saves id status) =
    change id (λ e. (e.0, some record { analysis_id = id; status = status }))
intended (deletes id) = change id (λ e. (none, none))

abbrev pub intended_all : List Operation → View → View
intended_all [] v = v
intended_all (o ∷ os) v = intended_all os (intended o v)

unchanged : (id : Text) (f : Entry → Entry) (v : View) → f (v id) ≡ v id → v ≡ change id f v
unchanged id f v h = fun_ext λ k. elim (Bool-cases (id == k)) [
  | inl q ↦
      let same : id ≡ k = (list_beq_iff id k).0 q in rw q (subst (λ t. v t ≡ f (v t)) same (sym h))
  | inr q ↦ rw q refl
]

update-intended :
    (id : Text) (f : Job → Job) (s : Server)
    → view (apply_one (updates id f) s) ≡ intended (updates id f) (view s)
unfolding update_job
update-intended id f s = elim (Option-cases (find id s.jobs)) [
  | inl q ↦ rw (update_job, q) (unchanged id (λ e. (updated f e.0, e.1)) (view s) (rw q refl))
  | inr (j, q) ↦
      let step : view (apply_one (updates id f) s)
          ≡ view (record s { jobs = put id (f j) s.jobs }) =
        rw (update_job, q) refl in
      step
      ∙ fun_ext λ k. elim (Bool-cases (id == k)) [
        | inl p ↦
            let here : find k s.jobs ≡ some j =
              subst (λ t. find t s.jobs ≡ some j) ((list_beq_iff id k).0 p) q in
            ground (arith, find-put_if id k (f j) s.jobs, p, here)
        | inr p ↦ ground (arith, find-put_if id k (f j) s.jobs, p)
      ]
]

delete-intended :
    (id : Text) (s : Server) → view (apply_one (deletes id) s) ≡ intended (deletes id) (view s)
unfolding delete_analysis
delete-intended id s = elim (Option-cases (delete_analysis id s)) [
  | inl q ↦ rw q (unchanged id (λ e. (none, none)) (view s) (ground (arith, q)))
  | inr (t, q) ↦
      rw (q, sym (delete_analysis_inv id s t q))
        (fun_ext λ k. ground (arith, find-remove_if id k s.jobs, find-remove_if id k s.saved))
]

apply_one-intended : (o : Operation) (s : Server) → view (apply_one o s) ≡ intended o (view s)
unfolding create_analysis
apply_one-intended (creates id request) s = fun_ext λ k. ground (
  arith,
  find-put_if id k
      (queued_job request.package_name request.version (5 + extra_stages request.custom_command))
      s.jobs,
)
apply_one-intended (updates id f) s = update-intended id f s
apply_one-intended (saves id status) s =
    fun_ext
      λ k. ground (arith, find-put_if id k (record { analysis_id = id; status = status }) s.saved)
apply_one-intended (deletes id) s = delete-intended id s

apply_all-intended :
    (os : List Operation) (s : Server) → view (apply_all os s) ≡ intended_all os (view s)
apply_all-intended [] s = refl
apply_all-intended (o ∷ os) s =
    apply_all-intended os (apply_one o s) ∙ ap (intended_all os) (apply_one-intended o s)

answers :
    (id : Text) (f : Job → Job) (s : Server)
    → (get_analysis id s ≡ answer id (view s id))
      × (delete_analysis id s ≡ none ↔ view s id ≡ (none, none))
      × (update_job id f s ≡ none ↔ (view s id).0 ≡ none)
unfolding get_analysis delete_analysis update_job
answers id f s = (ground arith, ground arith, ground arith)

-- After any sequence of requests and workers' updates, refused ones included, the server is the function
-- from ids to entries that the sequence of changes gives, each at one id: a new analysis sets the job, an
-- update changes it where there is one, a saved report sets the report, a deletion clears both. The answer
-- for an id is read off its entry, a deletion is refused exactly where the entry is empty, and an update
-- exactly where it has no job.
pub server_refines :
    (os : List Operation) (s : Server) (id : Text) (f : Job → Job)
    → let t = apply_all os s in
      let v = intended_all os (view s) in
      (view t ≡ v)
      × (get_analysis id t ≡ answer id (v id))
      × (delete_analysis id t ≡ none ↔ v id ≡ (none, none))
      × (update_job id f t ≡ none ↔ (v id).0 ≡ none)
server_refines os s id f =
    let t = apply_all os s in
    let same = apply_all-intended os s in
    let rest =
      subst
        (λ (v : View).
          (get_analysis id t ≡ answer id (v id))
          × (delete_analysis id t ≡ none ↔ v id ≡ (none, none))
          × (update_job id f t ≡ none ↔ (v id).0 ≡ none))
        same (answers id f t) in
    (same, rest.0, rest.1, rest.2)
