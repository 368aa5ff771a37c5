-- ===== src/Xacto/Protocol.antt =====
-- hw5/src/protocol.c, with the packets of hw5/include/protocol.h. `Rio` stands for the two
-- functions of the package behind hw5/src/csapp.c that move bytes: a connection is what is still
-- to be read from it, and what was written to it.
pub mod Laws
use c_language.Prelude.{
  ℕ, zero, suc, ◌+◌, ◌*◌, ◌/◌, ◌%◌, ◌^◌, Bool, true, false, Option, none, some, ◌>>=◌, List, [],
  ◌∷◌, ◌++◌, length, ◌==◌, if◌then◌else◌, u8,
}

-- `none` is the result -1.
pub record Rio : Type 0 where
  pub readn : List ℕ → ℕ → Option (List ℕ × List ℕ)
  pub writen : List ℕ → List ℕ → Option (List ℕ)

-- `padding` is the byte that the compiler puts between `null` and `size`.
pub record Packet : Type 0 where
  pub type : ℕ
  pub status : ℕ
  pub null : ℕ
  pub padding : ℕ
  pub size : ℕ
  pub timestamp_sec : ℕ
  pub timestamp_nsec : ℕ

-- A field of 32 bits in memory after htonl: the most significant byte comes first.
unfoldable pub htonl : ℕ → List ℕ
htonl w = u8 (w / 2 ^ 24) ∷ (u8 (w / 2 ^ 16) ∷ (u8 (w / 2 ^ 8) ∷ (u8 w ∷ [])))

unfoldable pub ntohl : ℕ → ℕ → ℕ → ℕ → ℕ
ntohl a b c d = a * 2 ^ 24 + (b * 2 ^ 16 + (c * 2 ^ 8 + d))

-- The structure in memory after the three conversions.
unfoldable pub packet_bytes : Packet → List ℕ
packet_bytes p =
    p.type
    ∷ (p.status
        ∷ (p.null
            ∷ (p.padding ∷ (htonl p.size ++ (htonl p.timestamp_sec ++ htonl p.timestamp_nsec)))))

unfoldable pub proto_send_packet : Rio → List ℕ → Packet → List ℕ → Option (List ℕ)
proto_send_packet rio out p payload = do
  out ← rio.writen out (packet_bytes p)
  rio.writen out payload

-- What proto_recv_packet makes of the bytes of a packet; `null` is set to 0.
unfoldable pub packet_of : List ℕ → Option Packet
packet_of
      (t
        ∷ (s
            ∷ (n
                ∷ (p
                    ∷ (a
                        ∷ (b
                            ∷ (c ∷ (d ∷ (e ∷ (f ∷ (g ∷ (h ∷ (i ∷ (j ∷ (k ∷ (l ∷ [])))))))))))))))) =
    some (record {
      type = t;
      status = s;
      null = 0;
      padding = p;
      size = ntohl a b c d;
      timestamp_sec = ntohl e f g h;
      timestamp_nsec = ntohl i j k l;
    })
packet_of _ = none

-- The payload goes to datap[0]; without one, datap[0] keeps what it had, since only the
-- parameter datap is set to NULL.
unfoldable pub recv_payload :
    Rio → Packet → Option (List ℕ) → List ℕ → Option (Packet × Option (List ℕ) × List ℕ)
recv_payload rio p datap input =
    if p.size == 0
    then some (p, datap, input)
    else (rio.readn input p.size >>= λ r. some (p, some r.0, r.1))

unfoldable pub proto_recv_packet :
    Rio → Option (List ℕ) → List ℕ → Option (Packet × Option (List ℕ) × List ℕ)
proto_recv_packet rio datap input = do
  r ← rio.readn input 16
  p ← packet_of r.0
  recv_payload rio p datap r.1
