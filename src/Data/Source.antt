-- ===== src/Data/Source.antt =====
-- Which addresses may open the data connection.
use cftp_server.Base.{
  ℕ, ◌≡◌, ◌≢◌, refl, sym, ◌∙◌, Bool, true, none, some, Bytes, arith, take, strncmp_eq,
  strncmp_eq_iff, Bool-cases, inl, inr, if◌then◌else◌,
}
use cftp_server.Faults.{ok}
use cftp_server.Connection.{Connection, free_timer}
use cftp_server.Data.{data_connection_accept_cb}

strncmp_eq-take :
    (n : ℕ) (a b d : Bytes) → take n b ≡ take n d → strncmp_eq n a b ≡ strncmp_eq n a d
strncmp_eq-take n a b d h =
    let left = strncmp_eq_iff n a b in
    let right = strncmp_eq_iff n a d in
    elim (Bool-cases (strncmp_eq n a d)) [
      | inl same ↦ left.1 (right.0 same ∙ sym h) ∙ sym same
      | inr differ ↦ elim (Bool-cases (strncmp_eq n a b)) [
        | inr other ↦ other ∙ sym differ
        | inl same ↦
            let clash : strncmp_eq n a d ≡ true = right.1 (left.0 same ∙ h) in absurd (ground arith)
      ]
    ]

-- An address is refused, with nothing changed, exactly if its first four bytes differ from those
-- of the address of the control connection; the rest of the address is not looked at.
pub data_connection_accept_cb-source :
    (made : Bool) (ip : Bytes) (fd : ℕ) (c : Connection)
    → (take 4 c.source_ip ≢ take 4 ip → data_connection_accept_cb made ip fd c ≡ ok c)
      × ((other : Bytes)
          → take 4 other ≡ take 4 ip
          → data_connection_accept_cb made other fd c ≡ data_connection_accept_cb made ip fd c)
      × (take 4 c.source_ip ≡ take 4 ip
          → data_connection_accept_cb true ip fd c
            ≡ free_timer (record c {
              data_active = if c.data_tls_required then 0 else 1;
              pasv_listener = none;
              data_bev = some fd;
              data_low_mark = 0;
            }))
unfolding data_connection_accept_cb
data_connection_accept_cb-source made ip fd c = (
  λ differ. elim (Bool-cases (strncmp_eq 4 c.source_ip ip)) [
    | inl same ↦ absurd (differ ((strncmp_eq_iff 4 c.source_ip ip).0 same))
    | inr other ↦ rw other refl
  ],
  λ other same. rw (strncmp_eq-take 4 c.source_ip other ip same) refl,
  λ same. rw ((strncmp_eq_iff 4 c.source_ip ip).1 same) refl,
)
