-- ===== src/Xacto/Protocol/Laws.antt =====
-- What is sent by hw5/src/protocol.c is received.
use c_language.Prelude.{append_assoc}
use c_language.Prelude.{
  ℕ, ◌/◌, ◌^◌, ◌<◌, ◌≡◌, refl, ap, ◌∙◌, inl, inr, Option, some, List, [], ◌∷◌, ◌++◌, length, arith,
  ◌==◌, if◌then◌else◌, Bool-cases, ==_iff, u8,
}
use c_language.Xacto.Protocol.{
  Rio, Packet, htonl, ntohl, packet_bytes, proto_send_packet, packet_of, recv_payload,
  proto_recv_packet,
}

-- The functions move all the bytes that they are asked for, when these are there.
pub record IsReliable (rio : Rio) : Type 0 where
  pub reads : (bytes rest : List ℕ) → rio.readn (bytes ++ rest) (length bytes) ≡ some (bytes, rest)
  pub writes : (out bytes : List ℕ) → rio.writen out bytes ≡ some (out ++ bytes)

-- The fields have the widths of the structure, and the payload the size that the packet gives.
pub record Fits (p : Packet) (payload : List ℕ) : Type 0 where
  pub size_fits : p.size < 2 ^ 32
  pub sec_fits : p.timestamp_sec < 2 ^ 32
  pub nsec_fits : p.timestamp_nsec < 2 ^ 32
  pub payload_size : length payload ≡ p.size

ntohl-htonl :
    (w : ℕ) → w < 2 ^ 32 → ntohl (u8 (w / 2 ^ 24)) (u8 (w / 2 ^ 16)) (u8 (w / 2 ^ 8)) (u8 w) ≡ w
unfolding ntohl
ntohl-htonl w h = omega arith

abbrev pub received : Packet → Packet
received p = record p { null = 0 }

packet_of-packet_bytes :
    (p : Packet) (payload : List ℕ)
    → Fits p payload
    → packet_of (packet_bytes p) ≡ some (received p)
unfolding packet_of packet_bytes htonl
packet_of-packet_bytes p payload f =
    rw
      (
        ntohl-htonl p.size f.size_fits,
        ntohl-htonl p.timestamp_sec f.sec_fits,
        ntohl-htonl p.timestamp_nsec f.nsec_fits,
      )
      refl

-- What datap[0] is after a packet.
abbrev pub after : Packet → List ℕ → Option (List ℕ) → Option (List ℕ)
after p payload datap = if p.size == 0 then datap else some payload

module _ (rio : Rio) (r : IsReliable rio) where
  recv_payload_all :
      (p : Packet) (payload rest : List ℕ) (datap : Option (List ℕ))
      → Fits p payload
      → recv_payload rio (received p) datap (payload ++ rest)
        ≡ some (received p, after p payload datap, rest)
  unfolding recv_payload
  recv_payload_all p payload rest datap f = elim (Bool-cases (p.size == 0)) [
    | inl e ↦
        let z : length payload ≡ 0 = f.payload_size ∙ (==_iff p.size 0).0 e in
        rw e (ap (λ t. some (received p, datap, t ++ rest)) (empty payload z))
    | inr e ↦ rw (e, ← f.payload_size, r.reads payload rest) refl
  ]
    where
      empty : (xs : List ℕ) → length xs ≡ 0 → xs ≡ []
      empty [] h = refl
      empty (x ∷ xs) h = absurd (omega arith)

  recv_16 :
      (p : Packet) (payload rest : List ℕ)
      → rio.readn ((packet_bytes p ++ payload) ++ rest) 16 ≡ some (packet_bytes p, payload ++ rest)
  unfolding packet_bytes htonl
  recv_16 p payload rest =
      ap (λ t. rio.readn t 16) (append_assoc (packet_bytes p) payload rest)
      ∙ r.reads (packet_bytes p) (payload ++ rest)

  -- What proto_send_packet writes for a packet with fields of their widths and a payload of its
  -- size, proto_recv_packet reads back, with the field null cleared, the payload in datap[0] if
  -- there is one, and what follows left in the connection.
  pub proto_send_recv :
      (out rest : List ℕ) (p : Packet) (payload : List ℕ) (datap : Option (List ℕ))
      → Fits p payload
      → (sent : List ℕ) × (proto_send_packet rio out p payload ≡ some (out ++ sent))
        × (proto_recv_packet rio datap (sent ++ rest)
            ≡ some (received p, after p payload datap, rest))
  unfolding proto_send_packet proto_recv_packet
  proto_send_recv out rest p payload datap f = (
    packet_bytes p ++ payload,
    rw (r.writes out (packet_bytes p), r.writes (out ++ packet_bytes p) payload)
        (ap some (append_assoc out (packet_bytes p) payload)),
    rw (recv_16 p payload rest, packet_of-packet_bytes p payload f)
        (recv_payload_all p payload rest datap f),
  )
