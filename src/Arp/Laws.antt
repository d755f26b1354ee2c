-- ===== src/Arp/Laws.antt =====
-- The ARP table as a map from addresses to link addresses.
use warp.Prelude.{
  ℕ, ◌%◌, ◌^◌, ◌≡◌, ◌≢◌, ◌↔◌, ◌+◌, length, one_if, refl, Bool, true, false, ◌&&◌, some, List, arith,
}
use warp.Slots.{choose, change_entry}
use warp.Slots.Laws.{
  find-write, find-write_ne, tally, fresh_count, tally-write, tally-change, tally-change_eq,
  choose-eq-full,
}
use warp.Arp.{
  Entry, has_ip, has_key, fill, refresh, arp_update_entry, arp_delete_entry, arp_delete_local,
  arp_lookup, arp_lookup_mac,
}

-- An update that succeeds is what a lookup of the address in the VLAN finds.
pub lookup-update :
    (es : List Entry) (ip m : ℕ) (local : Bool) (vlan : ℕ)
    → (arp_update_entry es ip m local vlan).1 ≡ true
    → arp_lookup_mac (arp_update_entry es ip m local vlan).0 ip vlan ≡ some (m % 2 ^ 48)
unfolding arp_update_entry arp_lookup_mac arp_lookup
lookup-update es ip m local vlan h =
    find-write Entry.in_use (has_ip ip) (has_key ip vlan) Entry.mac (fill ip m local vlan)
      (refresh m vlan) (m % 2 ^ 48) es (λ e k. ground arith) (λ e. ground arith) (λ e. refl)
      (λ e u k. ground arith) (λ e. refl) (λ f. ground arith)

-- An update of one address does not change the lookup of another one, in any VLAN.
pub lookup-update_ne :
    (es : List Entry) (ip m : ℕ) (local : Bool) (vlan : ℕ) {ip' : ℕ} (vlan' : ℕ)
    → ip' ≢ ip
    → arp_lookup (arp_update_entry es ip m local vlan).0 ip' vlan' ≡ arp_lookup es ip' vlan'
unfolding arp_update_entry arp_lookup
lookup-update_ne es ip m local vlan {ip'} vlan' ne =
    find-write_ne Entry.in_use (has_ip ip) (has_key ip' vlan') (fill ip m local vlan)
      (refresh m vlan) es (λ e. ground arith) (λ e u k. ground arith) (λ e k. ground arith)

-- The entries in use for an address.
unfoldable pub entries : ℕ → List Entry → ℕ
entries ip es = tally (λ e. e.in_use && has_ip ip e) es

-- An update adds an entry for its address when a free slot comes before the one of the address, and
-- otherwise only when the address has none.
entries-update :
    (es : List Entry) (ip m : ℕ) (local : Bool) (vlan : ℕ)
    → entries ip (arp_update_entry es ip m local vlan).0
      ≡ entries ip es + fresh_count (choose Entry.in_use (has_ip ip) es)
unfolding arp_update_entry entries
entries-update es ip m local vlan =
    tally-write Entry.in_use (has_ip ip) (fill ip m local vlan) (refresh m vlan) es
      (λ e. ground arith) (λ e u k. ground arith)

-- A removal takes away one entry of the address, or answers that there is none.
entries-delete :
    (es : List Entry) (ip : ℕ)
    → entries ip (arp_delete_entry es ip).0 + one_if (arp_delete_entry es ip).1 ≡ entries ip es
unfolding arp_delete_entry entries
entries-delete es ip =
    ground (
      arith,
      tally-change Entry.in_use (has_ip ip) (λ e. record e { in_use = false }) es (λ e. refl),
    )

-- A table refuses an address exactly when every entry is in use and none is for the address.
pub update-full :
    (es : List Entry) (ip m : ℕ) (local : Bool) (vlan : ℕ)
    → ((arp_update_entry es ip m local vlan).1 ≡ false)
      ↔ ((tally Entry.in_use es ≡ length es) × (entries ip es ≡ 0))
unfolding arp_update_entry entries
update-full es ip m local vlan = ground (arith, choose-eq-full Entry.in_use (has_ip ip) es)

-- The removal of an address of the port takes away one entry of the address, or answers that there is
-- no such address in the VLAN.
pub entries-delete_local :
    (es : List Entry) (ip vlan : ℕ)
    → entries ip (arp_delete_local es ip vlan).0 + one_if (arp_delete_local es ip vlan).1
      ≡ entries ip es
unfolding arp_delete_local arp_lookup entries
entries-delete_local es ip vlan =
    let hidden =
      change_entry Entry.in_use (has_key ip vlan) (λ e. record e { is_local = false }) es in
    let kept : entries ip hidden ≡ entries ip es =
      tally-change_eq Entry.in_use (has_key ip vlan) (λ e. e.in_use && has_ip ip e)
        (λ e. record e { is_local = false }) es (λ e. refl) in
    ground (arith, kept, entries-delete hidden ip)
