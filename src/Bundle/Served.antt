-- ===== src/Bundle/Served.antt =====
-- Which files of a log bundle are served, and how.
use whs_dynamic.Base.{
  ◌⊎◌, not, any, arith, [], ◌∷◌, Option, none, some, true, false, ◌≡◌, ◌≢◌, sym, ap, ◌∙◌, refl,
  Text, codes, ◌==◌, nat_eq, list_eq, contains, find, put, All, Bool-cases, Option-cases, inl, inr,
  list_beq_iff,
}
use whs_dynamic.Bundle.{
  Files, LogSource, with_default, write_all, signal_file, write_signals, write_capture_file,
  bundle_files, is_encodable, texts_of, write_log_bundle, log_files, universal_newlines, get_log,
}

-- The name is one that the requests allow.
abbrev pub IsListed : Files → Type 0
IsListed = All (λ f. contains log_files f.0 ≡ true)

put-IsListed :
    (k v : Text) (d : Files) → contains log_files k ≡ true → IsListed d → IsListed (put k v d)
unfolding put
put-IsListed k v [] p h = (p, tt)
put-IsListed k v ((j, w) ∷ d) p (q, h) = elim (Bool-cases (j == k)) [
  | inl e ↦ rw e (q, h)
  | inr e ↦ rw e (q, put-IsListed k v d p h)
]

write_all-IsListed :
    (raw files : Files) → IsListed raw → IsListed files → IsListed (write_all raw files)
unfolding write_all
write_all-IsListed [] files h g = g
write_all-IsListed ((k, v) ∷ raw) files (p, h) g =
    write_all-IsListed raw (put k v files) h (put-IsListed k v files p g)

write_signals-IsListed :
    (signals files : Files)
    → All (λ f. contains log_files (signal_file f.0) ≡ true) signals
    → IsListed files
    → IsListed (write_signals signals files)
unfolding write_signals
write_signals-IsListed [] files h g = g
write_signals-IsListed ((k, v) ∷ signals) files (p, h) g =
    write_signals-IsListed signals (put (signal_file k) v files) h
      (put-IsListed (signal_file k) v files p g)

with_default-IsListed :
    (value : Text) (raw : Files)
    → IsListed raw
    → IsListed (with_default (codes "netsim.json") value raw)
unfolding with_default
with_default-IsListed value raw h = elim (Option-cases (find (codes "netsim.json") raw)) [
  | inl e ↦ rw (with_default, e) (put-IsListed (codes "netsim.json") value raw refl h)
  | inr (v, e) ↦ rw (with_default, e) h
]

capture-IsListed :
    (pcap : Option Text) (files : Files) → IsListed files → IsListed (write_capture_file pcap files)
unfolding write_capture_file
capture-IsListed none files h = h
capture-IsListed (some []) files h = h
capture-IsListed (some (c ∷ bytes)) files h =
    put-IsListed (codes "network.pcap") (c ∷ bytes) files refl h

bundle-IsListed :
    (no_netsim : Text) (r : LogSource)
    → IsListed r.raw_files
    → All (λ f. contains log_files (signal_file f.0) ≡ true) r.signals
    → IsListed (bundle_files no_netsim r [])
unfolding bundle_files
bundle-IsListed no_netsim r raw signals = put-IsListed _ _ _ refl (
    put-IsListed _ _ _ refl (
      capture-IsListed r.pcap _ (
        put-IsListed _ _ _ refl (
          put-IsListed _ _ _ refl (
            put-IsListed _ _ _ refl (
              put-IsListed _ _ _ refl (
                write_signals-IsListed r.signals _ signals (
                  write_all-IsListed _ [] (with_default-IsListed no_netsim r.raw_files raw)
                    tt))))))))

listed_not : true ≢ false
listed_not e = cc

find-unlisted :
    (name : Text) (files : Files)
    → IsListed files
    → contains log_files name ≡ false
    → find name files ≡ none
unfolding find
find-unlisted name [] h no_name = refl
find-unlisted name ((j, w) ∷ files) (p, h) no_name = elim (Bool-cases (j == name)) [
  | inl e ↦
      absurd (listed_not (sym p ∙ (ap (contains log_files) ((list_beq_iff j name).0 e) ∙ no_name)))
  | inr e ↦ rw e (find-unlisted name files h no_name)
]

universal_newlines_same : (s : Text) → contains s 13 ≡ false → universal_newlines s ≡ s
unfolding universal_newlines
universal_newlines_same [] h = refl
universal_newlines_same (c ∷ []) h = ground (arith, h)
universal_newlines_same (c ∷ d ∷ s) h =
    ground (arith, h, universal_newlines_same (d ∷ s) (ground (arith, h)))

-- A file that is there is served, with other newlines only where it has a carriage return and is not the
-- capture.
abbrev pub IsServed : Text → Files → Type 0
IsServed name files =
    ((find name files ≡ none) × (get_log name files ≡ none))
    ⊎ ((content served : Text) × (find name files ≡ some content)
        × (get_log name files ≡ some served)
        × ((served ≡ content)
            ⊎ ((contains content 13 ≡ true)
                × ((name == codes "network.pcap") ≡ false)
                × (served ≡ universal_newlines content))))

listed-IsServed :
    (name : Text) (files : Files) → contains log_files name ≡ true → IsServed name files
unfolding get_log
listed-IsServed name files listed = elim (Option-cases (find name files)) [
  | inl q ↦ inl (q, rw (get_log, listed, q) refl)
  | inr (content, q) ↦ elim (Bool-cases (name == codes "network.pcap")) [
    | inl p ↦ inr (content, content, q, rw (get_log, listed, q, p) refl, inl refl)
    | inr p ↦ elim (Bool-cases (contains content 13)) [
      | inl c ↦ inr (
        content,
        universal_newlines content,
        q,
        rw (get_log, listed, q, p) refl,
        inr (c, p, refl),
      )
      | inr c ↦ inr (
        content,
        universal_newlines content,
        q,
        rw (get_log, listed, q, p) refl,
        inl (universal_newlines_same content c),
      )
    ]
  ]
]

files-IsServed : (name : Text) (files : Files) → IsListed files → IsServed name files
unfolding get_log
files-IsServed name files h = elim (Bool-cases (contains log_files name)) [
  | inl e ↦ listed-IsServed name files e
  | inr e ↦ inl (find-unlisted name files h e, rw (get_log, e) refl)
]

-- If the raw files and the signals have names that the requests allow, a bundle is written unless some text
-- of it cannot be encoded in UTF-8. Then exactly its files are served, each with its content, but for the
-- newlines of a text that has a carriage return.
pub get_log-write_log_bundle :
    (no_netsim name : Text) (r : LogSource)
    → IsListed r.raw_files
    → All (λ f. contains log_files (signal_file f.0) ≡ true) r.signals
    → ((any (λ s. not (is_encodable s)) (texts_of no_netsim r) ≡ true)
        × (write_log_bundle no_netsim r [] ≡ none))
      ⊎ ((write_log_bundle no_netsim r [] ≡ some (bundle_files no_netsim r []))
          × IsServed name (bundle_files no_netsim r []))
unfolding write_log_bundle
get_log-write_log_bundle no_netsim name r raw signals =
    let served =
      files-IsServed name (bundle_files no_netsim r []) (bundle-IsListed no_netsim r raw signals) in
    elim (Bool-cases (any (λ s. not (is_encodable s)) (texts_of no_netsim r))) [
      | inl q ↦ inl (q, rw (write_log_bundle, q) refl)
      | inr q ↦ inr (rw (write_log_bundle, q) refl, served)
    ]
