-- ===== src/BaseApp/Readdress.antt =====
-- The AWAKEN frame that SmartFiresBaseApp.cpp passes on with the id that it assigned.
use smart_fires_io_t.Base.{
  ℕ, ◌+◌, ◌≡◌, ◌≤◌, ◌<◌, refl, sym, ap, ◌∙◌, true, false, leb, List, [], ◌∷◌, some, length, take,
  drop, arith,
}
use smart_fires_io_t.Wire.Constants.{awaken_lora_size, awaken_lora_size_legacy}
use smart_fires_io_t.Wire.Crc.{seal, crc_ok}
use smart_fires_io_t.Wire.Crc.Laws.{crc_ok-seal}
use smart_fires_io_t.Wire.Layout
use smart_fires_io_t.Wire.Packet.{PktHeader, AwakenPayload}
use smart_fires_io_t.Wire.Decode.{decode_awaken, decode_awaken_as}
use smart_fires_io_t.BaseApp.Incoming.{patched_awaken}

-- That a frame decodes to what another decodes to, but for the id.
abbrev Readdressed : ℕ → List ℕ → List ℕ → Type 0
Readdressed id raw out =
    (hdr : PktHeader) (p : AwakenPayload)
    → decode_awaken raw ≡ some (hdr, p)
    → decode_awaken out ≡ some (record hdr { node_id = id }, p)

long_awaken :
    (raw : List ℕ) → awaken_lora_size ≤ length raw → decode_awaken raw ≡ decode_awaken_as 5 6 raw
unfolding decode_awaken
long_awaken raw h = ground (arith, h)

as-Readdressed :
    (m n id : ℕ) (raw out : List ℕ) (hdr : PktHeader) (p : AwakenPayload)
    → crc_ok (take (m + n + 1) out) ≡ true
    → Layout.header_of (take m out) ≡ (record (Layout.header_of (take m raw)) { node_id = id })
    → Layout.awaken_of (take n (drop m out)) ≡ Layout.awaken_of (take n (drop m raw))
    → decode_awaken_as m n raw ≡ some (hdr, p)
    → decode_awaken_as m n out ≡ some (record hdr { node_id = id }, p)
unfolding decode_awaken_as
as-Readdressed m n id raw out hdr p ok head body said = ground (arith, ok, head, body, said)

current :
    (id c0 c1 c2 c3 c4 c5 c6 c7 c8 c9 c10 c11 : ℕ) (rest : List ℕ)
    → let raw = c0 ∷ c1 ∷ c2 ∷ c3 ∷ c4 ∷ c5 ∷ c6 ∷ c7 ∷ c8 ∷ c9 ∷ c10 ∷ c11 ∷ rest in
      Readdressed id raw (patched_awaken (some id) raw)
current id c0 c1 c2 c3 c4 c5 c6 c7 c8 c9 c10 c11 rest hdr p h =
    let raw = c0 ∷ c1 ∷ c2 ∷ c3 ∷ c4 ∷ c5 ∷ c6 ∷ c7 ∷ c8 ∷ c9 ∷ c10 ∷ c11 ∷ rest in
    let body = c0 ∷ c1 ∷ id ∷ c3 ∷ c4 ∷ c5 ∷ c6 ∷ c7 ∷ c8 ∷ c9 ∷ c10 ∷ [] in
    let long : leb awaken_lora_size (length raw) ≡ true = ground arith in
    let out : patched_awaken (some id) raw ≡ seal body =
      unfold patched_awaken seal in rw long refl in
    let ok : crc_ok (take 12 (seal body)) ≡ true = unfold seal in crc_ok-seal body in
    let said : decode_awaken_as 5 6 raw ≡ some (hdr, p) = sym (long_awaken raw (omega arith)) ∙ h in
    let says : decode_awaken_as 5 6 (seal body) ≡ some (record hdr { node_id = id }, p) =
      as-Readdressed 5 6 id raw (seal body) hdr p ok (unfold seal Layout.header_of in refl)
        (unfold seal in refl) said in
    ap decode_awaken out ∙ long_awaken (seal body) (unfold seal in omega arith) ∙ says

short_awaken :
    (raw : List ℕ)
    → awaken_lora_size_legacy ≤ length raw
    → length raw < awaken_lora_size
    → decode_awaken raw ≡ decode_awaken_as 4 4 raw
unfolding decode_awaken
short_awaken raw h less = ground (arith, h, less)

legacy :
    (id c0 c1 c2 c3 c4 c5 c6 c7 c8 : ℕ) (rest : List ℕ)
    → length rest < 3
    → let raw = c0 ∷ c1 ∷ c2 ∷ c3 ∷ c4 ∷ c5 ∷ c6 ∷ c7 ∷ c8 ∷ rest in
      Readdressed id raw (patched_awaken (some id) raw)
legacy id c0 c1 c2 c3 c4 c5 c6 c7 c8 rest less hdr p h =
    let raw = c0 ∷ c1 ∷ c2 ∷ c3 ∷ c4 ∷ c5 ∷ c6 ∷ c7 ∷ c8 ∷ rest in
    let body = c0 ∷ c1 ∷ id ∷ c3 ∷ c4 ∷ c5 ∷ c6 ∷ c7 ∷ [] in
    let short : leb awaken_lora_size (length raw) ≡ false = ground (arith, less) in
    let out : patched_awaken (some id) raw ≡ seal body =
      unfold patched_awaken seal in rw short refl in
    let ok : crc_ok (take 9 (seal body)) ≡ true = unfold seal in crc_ok-seal body in
    let said : decode_awaken_as 4 4 raw ≡ some (hdr, p) =
      sym (short_awaken raw (omega arith) (omega (arith, less))) ∙ h in
    let says : decode_awaken_as 4 4 (seal body) ≡ some (record hdr { node_id = id }, p) =
      as-Readdressed 4 4 id raw (seal body) hdr p ok (unfold seal Layout.header_of in refl)
        (unfold seal in refl) said in
    ap decode_awaken out
    ∙ short_awaken (seal body) (unfold seal in omega arith) (unfold seal in omega arith)
    ∙ says

on_rest :
    (id c0 c1 c2 c3 c4 c5 c6 c7 c8 : ℕ) (rest : List ℕ)
    → let raw = c0 ∷ c1 ∷ c2 ∷ c3 ∷ c4 ∷ c5 ∷ c6 ∷ c7 ∷ c8 ∷ rest in
      Readdressed id raw (patched_awaken (some id) raw)
on_rest id c0 c1 c2 c3 c4 c5 c6 c7 c8 [] = legacy id c0 c1 c2 c3 c4 c5 c6 c7 c8 [] (omega arith)
on_rest id c0 c1 c2 c3 c4 c5 c6 c7 c8 (c9 ∷ []) =
    legacy id c0 c1 c2 c3 c4 c5 c6 c7 c8 (c9 ∷ []) (omega arith)
on_rest id c0 c1 c2 c3 c4 c5 c6 c7 c8 (c9 ∷ c10 ∷ []) =
    legacy id c0 c1 c2 c3 c4 c5 c6 c7 c8 (c9 ∷ c10 ∷ []) (omega arith)
on_rest id c0 c1 c2 c3 c4 c5 c6 c7 c8 (c9 ∷ c10 ∷ c11 ∷ rest) =
    current id c0 c1 c2 c3 c4 c5 c6 c7 c8 c9 c10 c11 rest

-- A buffer of at least nine bytes.
nine :
    (P : List ℕ → Type 0)
    → ((c0 c1 c2 c3 c4 c5 c6 c7 c8 : ℕ) (rest : List ℕ)
        → P (c0 ∷ c1 ∷ c2 ∷ c3 ∷ c4 ∷ c5 ∷ c6 ∷ c7 ∷ c8 ∷ rest))
    → (raw : List ℕ) → awaken_lora_size_legacy ≤ length raw
    → P raw
nine P h (c0 ∷ c1 ∷ c2 ∷ c3 ∷ c4 ∷ c5 ∷ c6 ∷ c7 ∷ c8 ∷ rest) size =
    h c0 c1 c2 c3 c4 c5 c6 c7 c8 rest
nine P h [] size = absurd (omega (arith, size))
nine P h (c0 ∷ []) size = absurd (omega (arith, size))
nine P h (c0 ∷ c1 ∷ []) size = absurd (omega (arith, size))
nine P h (c0 ∷ c1 ∷ c2 ∷ []) size = absurd (omega (arith, size))
nine P h (c0 ∷ c1 ∷ c2 ∷ c3 ∷ []) size = absurd (omega (arith, size))
nine P h (c0 ∷ c1 ∷ c2 ∷ c3 ∷ c4 ∷ []) size = absurd (omega (arith, size))
nine P h (c0 ∷ c1 ∷ c2 ∷ c3 ∷ c4 ∷ c5 ∷ []) size = absurd (omega (arith, size))
nine P h (c0 ∷ c1 ∷ c2 ∷ c3 ∷ c4 ∷ c5 ∷ c6 ∷ []) size = absurd (omega (arith, size))
nine P h (c0 ∷ c1 ∷ c2 ∷ c3 ∷ c4 ∷ c5 ∷ c6 ∷ c7 ∷ []) size = absurd (omega (arith, size))

decoded_awaken_size :
    (raw : List ℕ) (hdr : PktHeader) (p : AwakenPayload)
    → decode_awaken raw ≡ some (hdr, p)
    → awaken_lora_size_legacy ≤ length raw
unfolding decode_awaken
decoded_awaken_size raw hdr p h = ground (arith, h)

-- The receiver behind the base reads the assigned id: where the base can decode an AWAKEN frame, in its
-- current or its legacy layout and with any bytes behind it, the frame that goes on, with the id of the
-- assignment in place of the node's, decodes as well, to that id and otherwise to the same header and payload.
pub patched_awaken_roundtrip :
    (id : ℕ) (raw : List ℕ) (hdr : PktHeader) (p : AwakenPayload)
    → decode_awaken raw ≡ some (hdr, p)
    → decode_awaken (patched_awaken (some id) raw) ≡ some (record hdr { node_id = id }, p)
patched_awaken_roundtrip id raw hdr p h =
    nine (λ r. Readdressed id r (patched_awaken (some id) r)) (on_rest id) raw
      (decoded_awaken_size raw hdr p h) hdr p h
