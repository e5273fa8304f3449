-- ===== src/Pcap/Answers/Total.antt =====
-- Reading a capture never raises and always ends.
use whs_dynamic.Base.{ℕ, Option, none, some, Text, codes, join, List, nat_eq}
use whs_dynamic.Pcap.Answers.Finite.{Frames}
use whs_dynamic.Pcap.Answers.{Answers}

-- The name of the labels and the position behind it.
abbrev pub joined : Option (List Text × ℕ) → Option (Text × ℕ)
joined none = none
joined (some (labels, end)) = some (join (codes ".") labels, end)
