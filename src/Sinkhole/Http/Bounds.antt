-- ===== src/Sinkhole/Http/Bounds.antt =====
-- A connection is always served to an end, within the limits, and what a long length does.
use whs_dynamic.Base.{
  Bool, ℕ, suc, ◌≤◌, ◌<◌, List, [], ◌∷◌, ◌++◌, Option, none, some, true, false, ◌≡◌, ◌⊎◌, Text,
  length, Bytes, arith,
}
use whs_dynamic.Base.Outcomes.{Outcome, returned, raised}
use whs_dynamic.Sinkhole.Http.{
  max_request_bytes, Stream, read_head, split_head, int_of, content_length_of, HttpCapture, Served,
  dropped, capture_of, handle_request, after_head, handle_http,
}

-- What a read gives is no longer than was asked for.
abbrev IsShort : ℕ → Outcome (Bytes × Stream) → Type 0
IsShort n raised = Unit
IsShort n (returned (chunk, chunks)) = length chunk ≤ n

-- What the peer sends before the first error of the socket.
abbrev pub sent : Stream → Bytes
sent [] = []
sent (none ∷ chunks) = []
sent (some chunk ∷ chunks) = chunk ++ sent chunks

-- What a read gives is the next part of what the peer sends.
abbrev IsNext : Stream → Outcome (Bytes × Stream) → Type 0
IsNext chunks raised = Unit
IsNext chunks (returned (chunk, chunks')) = sent chunks ≡ chunk ++ sent chunks'

-- The loop over the head ends, with fewer bytes than the limit and one read.
abbrev EndsBelow : ℕ → Bytes → Option (Outcome (Bytes × Stream)) → Type 0
EndsBelow limit whole r =
    (r ≡ some raised)
    ⊎ ((buf : Bytes) × (chunks : Stream) × (r ≡ some (returned (buf, chunks)))
        × (length buf < limit)
        × (whole ≡ buf ++ sent chunks))

-- The loop over the body ends, with at most the larger of what was there and the length.
abbrev EndsWithin : ℕ → Bytes → Option (Outcome Bytes) → Type 0
EndsWithin limit whole r =
    (r ≡ some raised)
    ⊎ ((body rest : Bytes) × (r ≡ some (returned body))
        × (length body ≤ limit)
        × (whole ≡ body ++ rest))

module _ (search_length : Text → Option Text) (decode_utf8 : Bytes → Option Text) (sends : Bool)
    (hostname : Text) (client_ip : Option Text) (dst_port : ℕ) (captures : List HttpCapture) where
  abbrev pub captured : Bytes → Bytes → HttpCapture
  captured head body = capture_of search_length decode_utf8 hostname client_ip dst_port head body

  -- No capture more, or one of the head and the body of what the peer sent: `buf` is the start of it, its
  -- head is the capture's, and the rest of it with what was read behind it the capture's body.
  abbrev pub IsServed : Bytes → Served → Type 0
  IsServed whole s =
      (s.closed ≡ true)
      × (((s.captures ≡ captures) × (s.replied ≡ false))
          ⊎ ((buf later body unread : Bytes) × (whole ≡ buf ++ later)
              × ((split_head buf).1 ++ later ≡ body ++ unread)
              × (s.captures ≡ captures ++ captured (split_head buf).0 body ∷ [])
              × (s.replied ≡ sends)
              × (length buf < 69632)
              × (length body ≤ 69632)))

  -- A request of which the Content-Length has more than 4300 digits is lost: the conversion raises an
  -- exception that is not handled, so that the request is neither captured nor answered.
  pub long_length_lost :
      (chunks chunks' : Stream) (buf : Bytes) (digits : Text)
      → read_head (suc max_request_bytes) [] chunks ≡ some (returned (buf, chunks'))
      → search_length (split_head buf).0 ≡ some digits
      → 4300 < length digits
      → handle_http search_length decode_utf8 sends hostname client_ip dst_port captures chunks
        ≡ some (dropped true captures)
  unfolding handle_http after_head handle_request content_length_of int_of
  long_length_lost chunks chunks' buf digits r found long =
      rw (handle_http, r) (rw (handle_request, found) (ground (arith, long)))
