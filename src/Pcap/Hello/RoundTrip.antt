-- ===== src/Pcap/Hello/RoundTrip.antt =====
-- The server name of a well-formed ClientHello is found behind any other extensions.
use mathlib.Core.List.{append_assoc}
use whs_dynamic.Base.{
  ℕ, zero, suc, ◌+◌, ◌≤◌, ◌<◌, ◌≡◌, ◌≢◌, refl, ap, ◌∙◌, List, [], ◌∷◌, ◌++◌, some, Bytes, Text,
  slice, slice-append, length, length-append, pack_u16, read_byte, read_u16, decode_ascii, All,
  arith, get_elem?, unpack_u16, sym,
}
use whs_dynamic.Pcap.Hello.{find_sni, parse_client_hello_sni}

-- An extension: type, length, body.
abbrev pub write_extension : ℕ × Bytes → Bytes
write_extension (t, body) = pack_u16 t ++ (pack_u16 (length body) ++ body)

abbrev pub write_extensions : List (ℕ × Bytes) → Bytes
write_extensions [] = []
write_extensions (e ∷ es) = write_extension e ++ write_extensions es

-- The server_name extension: list length, name type and the name. The parser skips the first two.
abbrev pub write_server_name : ℕ → Bytes → Text → Bytes
write_server_name ext_len list_head host =
    pack_u16 0 ++ (pack_u16 ext_len ++ (list_head ++ (pack_u16 (length host) ++ host)))

pub record Hello : Type 0 where
  pub version : Bytes
  pub body : Bytes
  pub session_id : Bytes
  pub cipher_suites : Bytes
  pub compression : Bytes
  pub before : List (ℕ × Bytes)
  pub ext_len : ℕ
  pub list_head : Bytes
  pub host : Text
  pub behind : Bytes
  pub trailer : Bytes

module _ (h : Hello) where
  abbrev pub extensions : Bytes
  extensions =
      write_extensions h.before ++ (write_server_name h.ext_len h.list_head h.host ++ h.behind)

  -- The record header, the handshake header, version and random, and then the variable parts.
  abbrev pub hello_front : Bytes
  hello_front = 0x16 ∷ h.version ++ (0x01 ∷ h.body)

  abbrev pub write_hello : Bytes
  write_hello =
      hello_front
      ++ (length h.session_id ∷ h.session_id
          ++ (pack_u16 (length h.cipher_suites)
              ++ (h.cipher_suites
                  ++ (length h.compression ∷ h.compression
                      ++ (pack_u16 (length extensions) ++ (extensions ++ h.trailer))))))

  -- The fixed parts have their sizes, no extension before the server name is one, and the name is ASCII.
  pub record IsHello : Type 0 where
    pub version_size : length h.version ≡ 4
    pub body_size : length h.body ≡ 37
    pub list_head_size : length h.list_head ≡ 3
    pub others : All (λ e. e.0 ≢ 0) h.before
    pub ascii : All (λ c. c < 128) h.host

decode_ascii_of_ascii : (s : Text) → All (λ c. c < 128) s → decode_ascii s ≡ s
decode_ascii_of_ascii [] h = refl
decode_ascii_of_ascii (c ∷ s) h = ground (arith, decode_ascii_of_ascii s h.1)

length-write_extension :
    (t : ℕ) (body : Bytes) → length (write_extension (t, body)) ≡ 4 + length body
length-write_extension t body = omega arith

-- At the server name extension.
find_sni_here :
    (fuel : ℕ) (payload pre list_head host after : Bytes) (ext_len end pos : ℕ)
    → payload ≡ pre ++ (write_server_name ext_len list_head host ++ after)
    → pos ≡ length pre
    → length list_head ≡ 3
    → All (λ c. c < 128) host
    → pos + 4 ≤ end
    → find_sni (suc fuel) payload end pos ≡ some host
unfolding find_sni
find_sni_here fuel payload pre list_head host after ext_len end pos e p size ascii room =
    let t0 = read_u16 payload pre 0 _ pos e p in
    let e2 : payload
        ≡ (pre ++ pack_u16 0)
          ++ (pack_u16 ext_len ++ (list_head ++ (pack_u16 (length host) ++ (host ++ after)))) =
      e ∙ simp append_assoc in
    let t2 =
      read_u16 payload (pre ++ pack_u16 0) ext_len _ (pos + 2) e2
        (omega (arith, length-append {0} pre (pack_u16 0))) in
    let pre3 = (pre ++ pack_u16 0) ++ (pack_u16 ext_len ++ list_head) in
    let size3 : length pre3 ≡ pos + 7 = omega (
      arith,
      length-append {0} (pre ++ pack_u16 0) (pack_u16 ext_len ++ list_head),
      length-append {0} pre (pack_u16 0),
      length-append {0} (pack_u16 ext_len) list_head,
    ) in
    let e3 : payload ≡ pre3 ++ (pack_u16 (length host) ++ (host ++ after)) =
      e2 ∙ simp append_assoc in
    let t3 = read_u16 payload pre3 (length host) _ (pos + 4 + 3) e3 (omega arith) in
    let e4 : payload ≡ (pre3 ++ pack_u16 (length host)) ++ (host ++ after) =
      e3 ∙ simp append_assoc in
    let name : slice payload (pos + 4 + 3 + 2) (length host) ≡ host = rw e4 (
      slice-append (pre3 ++ pack_u16 (length host)) host after (pos + 4 + 3 + 2) (length host)
        (omega (arith, length-append {0} pre3 (pack_u16 (length host)))) refl) in
    let out : decode_ascii host ≡ host = decode_ascii_of_ascii host ascii in
    ground (arith, t0, t2, t3, name, out)

-- One other extension is stepped over.
find_sni_skip :
    (fuel : ℕ) (payload pre : Bytes) (t : ℕ) (body after : Bytes) (end pos : ℕ)
    → payload ≡ pre ++ (write_extension (t, body) ++ after)
    → pos ≡ length pre
    → t ≢ 0
    → pos + 4 ≤ end
    → find_sni (suc fuel) payload end pos ≡ find_sni fuel payload end (pos + 4 + length body)
unfolding find_sni
find_sni_skip fuel payload pre t body after end pos e p other room =
    let t0 =
      read_u16 payload pre t (pack_u16 (length body) ++ (body ++ after)) pos (e ∙ simp append_assoc)
        p in
    let e2 : payload ≡ (pre ++ pack_u16 t) ++ (pack_u16 (length body) ++ (body ++ after)) =
      e ∙ simp append_assoc in
    let t2 =
      read_u16 payload (pre ++ pack_u16 t) (length body) (body ++ after) (pos + 2) e2
        (omega (arith, length-append {0} pre (pack_u16 t))) in
    ground (arith, t0, t2)

find_sni_behind :
    (es : List (ℕ × Bytes)) (fuel : ℕ) (payload pre list_head host after : Bytes)
    (ext_len end pos : ℕ)
    → payload ≡ pre ++ (write_extensions es ++ (write_server_name ext_len list_head host ++ after))
    → pos ≡ length pre
    → length es < fuel
    → length list_head ≡ 3
    → All (λ e. e.0 ≢ 0) es
    → All (λ c. c < 128) host
    → pos + length (write_extensions es) + 4 ≤ end
    → find_sni fuel payload end pos ≡ some host
find_sni_behind es zero payload pre list_head host after ext_len end pos e p fuel_left size others
      ascii room =
    absurd (omega arith)
find_sni_behind [] (suc fuel) payload pre list_head host after ext_len end pos e p fuel_left size
      others ascii room =
    find_sni_here fuel payload pre list_head host after ext_len end pos e p size ascii (omega arith)
find_sni_behind ((t, body) ∷ es) (suc fuel) payload pre list_head host after ext_len end pos e p
      fuel_left size others ascii room =
    let sizes : length (write_extensions ((t, body) ∷ es))
        ≡ 4 + length body + length (write_extensions es) =
      omega (arith, length-append {0} (write_extension (t, body)) (write_extensions es)) in
    find_sni_skip fuel payload pre t body
      (write_extensions es ++ (write_server_name ext_len list_head host ++ after)) end pos
      (e ∙ simp append_assoc) p others.0 (omega arith)
    ∙ find_sni_behind es fuel payload (pre ++ write_extension (t, body)) list_head host after
        ext_len end (pos + 4 + length body) (e ∙ simp append_assoc)
        (omega (arith, length-append {0} pre (write_extension (t, body)))) (omega arith) size
        others.1 ascii (omega arith)

length-write_extensions : (es : List (ℕ × Bytes)) → length es ≤ length (write_extensions es)
length-write_extensions [] = omega arith
length-write_extensions ((t, body) ∷ es) = omega (
  arith,
  length-append {0} (write_extension (t, body)) (write_extensions es),
  length-write_extensions es,
)

-- The reads in front of the extensions.
parse_of_reads :
    (payload : Bytes) (sid cs cm exts pos1 pos2 pos3 : ℕ)
    → get_elem? payload 0 ≡ some 0x16
    → get_elem? payload 5 ≡ some 0x01
    → get_elem? payload 43 ≡ some sid
    → pos1 ≡ 43 + 1 + sid
    → unpack_u16 (slice payload pos1 2) ≡ some cs
    → pos2 ≡ pos1 + 2 + cs
    → get_elem? payload pos2 ≡ some cm
    → pos3 ≡ pos2 + 1 + cm
    → unpack_u16 (slice payload pos3 2) ≡ some exts
    → pos3 + 2 ≤ length payload
    → parse_client_hello_sni payload ≡ find_sni (suc exts) payload (pos3 + 2 + exts) (pos3 + 2)
unfolding parse_client_hello_sni
parse_of_reads payload sid cs cm exts pos1 pos2 pos3 r0 r5 r43 e1 r1 e2 r2 e3 r3 room = ground arith

module _ (h : Hello) (v : IsHello h) where
  abbrev sid : Bytes
  sid = h.session_id

  abbrev cs : Bytes
  cs = h.cipher_suites

  abbrev cm : Bytes
  cm = h.compression

  abbrev sni : Bytes
  sni = write_server_name h.ext_len h.list_head h.host

  abbrev front1 : Bytes
  front1 = hello_front h ++ (length sid ∷ sid)

  abbrev front2 : Bytes
  front2 = (front1 ++ pack_u16 (length cs)) ++ cs

  abbrev front3 : Bytes
  front3 = front2 ++ (length cm ∷ cm)

  abbrev front4 : Bytes
  front4 = front3 ++ pack_u16 (length (extensions h))

  abbrev behind2 : Bytes
  behind2 = cm ++ (pack_u16 (length (extensions h)) ++ (extensions h ++ h.trailer))

  abbrev behind1 : Bytes
  behind1 = cs ++ (length cm ∷ behind2)

  abbrev behind0 : Bytes
  behind0 = length sid ∷ sid ++ (pack_u16 (length cs) ++ behind1)

  hello_front_size : length (hello_front h) ≡ 43
  hello_front_size =
      omega (arith, length-append {0} h.version (0x01 ∷ h.body), v.version_size, v.body_size)

  front1_size : length front1 ≡ 44 + length sid
  front1_size =
      omega (arith, length-append {0} (hello_front h) (length sid ∷ sid), hello_front_size)

  front2_size : length front2 ≡ length front1 + 2 + length cs
  front2_size = omega (
    arith,
    length-append {0} (front1 ++ pack_u16 (length cs)) cs,
    length-append {0} front1 (pack_u16 (length cs)),
  )

  front3_size : length front3 ≡ length front2 + 1 + length cm
  front3_size = omega (arith, length-append {0} front2 (length cm ∷ cm))

  front4_size : length front4 ≡ length front3 + 2
  front4_size = omega (arith, length-append {0} front3 (pack_u16 (length (extensions h))))

  at_front4 :
      write_hello h ≡ front4 ++ (write_extensions h.before ++ (sni ++ (h.behind ++ h.trailer)))
  at_front4 = simp append_assoc

  at_front3 :
      write_hello h ≡ front3 ++ (pack_u16 (length (extensions h)) ++ (extensions h ++ h.trailer))
  at_front3 = simp append_assoc

  read_hello :
      parse_client_hello_sni (write_hello h)
      ≡ find_sni
          (suc (length (extensions h)))
          (write_hello h)
          (length front3 + 2 + length (extensions h))
          (length front3 + 2)
  read_hello =
      parse_of_reads (write_hello h) (length sid) (length cs) (length cm) (length (extensions h))
        (length front1) (length front2) (length front3) refl
        (read_byte (write_hello h) (0x16 ∷ h.version) 0x01 (h.body ++ behind0) 5 (simp append_assoc)
          (omega (arith, v.version_size)))
        (read_byte (write_hello h) (hello_front h) (length sid) _ 43 refl (sym hello_front_size))
        (omega (arith, front1_size))
        (read_u16 (write_hello h) front1 (length cs) behind1 (length front1) (simp append_assoc)
          refl)
        front2_size
        (read_byte (write_hello h) front2 (length cm) behind2 (length front2) (simp append_assoc)
          refl)
        front3_size
        (read_u16 (write_hello h) front3 (length (extensions h)) _ (length front3) at_front3 refl)
        (omega (
          arith,
          ap length at_front3,
          length-append {0} front3
              (pack_u16 (length (extensions h)) ++ (extensions h ++ h.trailer)),
        ))

  extensions_size : length (write_extensions h.before) + 4 ≤ length (extensions h)
  extensions_size = omega (
    arith,
    length-append {0} (write_extensions h.before) (sni ++ h.behind),
    length-append {0} sni h.behind,
  )

-- A ClientHello with any session id, cipher suites, compression methods and other extensions yields
-- exactly the ASCII name in its first server_name extension, whatever follows.
pub parse_client_hello_sni-write_hello :
    (h : Hello) → IsHello h → parse_client_hello_sni (write_hello h) ≡ some h.host
parse_client_hello_sni-write_hello h v =
    read_hello h v
    ∙ find_sni_behind h.before (suc (length (extensions h))) (write_hello h) (front4 h v)
        h.list_head h.host (h.behind ++ h.trailer) h.ext_len _ _ (at_front4 h v)
        (sym (front4_size h v))
        (omega (arith, length-write_extensions h.before, extensions_size h v)) v.list_head_size
        v.others v.ascii (omega (arith, extensions_size h v))
