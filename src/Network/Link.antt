-- ===== src/Network/Link.antt =====
-- What a listener of NetworkInfo knows.
use digital_rooster_gui.Base.{
  ◌≡◌, refl, ap, ◌∙◌, String, Bool, true, false, List, [], ◌∷◌, ◌++◌, map, none, some, str_eq,
  eq_iff, Bool-cases, inl, inr,
}
use digital_rooster_gui.Network.{
  Interface, NetworkInfo, Signal, link_status_changed, ip_addr_changed, differ, first_address,
  update_state, update_addr, update_net_info, polls,
}

-- What a listener knows that was told of changes.
abbrev pub heard : NetworkInfo → List Signal → NetworkInfo
heard k [] = k
heard k (link_status_changed up ∷ ss) = heard (record k { if_state = up }) ss
heard k (ip_addr_changed addr ∷ ss) = heard (record k { ip_addr = addr }) ss

heard-append : (k : NetworkInfo) (ss us : List Signal) → heard k (ss ++ us) ≡ heard (heard k ss) us
heard-append k [] us = refl
heard-append k (link_status_changed up ∷ ss) us = heard-append (record k { if_state = up }) ss us
heard-append k (ip_addr_changed a ∷ ss) us = heard-append (record k { ip_addr = a }) ss us

update_state-heard :
    (n : NetworkInfo) (up : Bool) → heard n (update_state n up).1 ≡ (update_state n up).0
unfolding update_state
update_state-heard n up = elim (Bool-cases (differ up n.if_state)) [
  | inl e ↦ rw (update_state, e) refl
  | inr e ↦ rw (update_state, e) refl
]

update_addr-heard :
    (n : NetworkInfo) (a : String) → heard n (update_addr n a).1 ≡ (update_addr n a).0
unfolding update_addr
update_addr-heard n a = elim (Bool-cases (str_eq a n.ip_addr)) [
  | inl e ↦ rw (update_addr, e) refl
  | inr e ↦ rw (update_addr, e) refl
]

update-heard :
    (n : NetworkInfo) (itf : Interface)
    → heard n (update_net_info n (some itf)).1 ≡ (update_net_info n (some itf)).0
unfolding update_net_info
update-heard n itf =
    let (n₁, first) = update_state n itf.is_up in
    let (n₂, second) = update_addr n₁ (first_address itf.addresses) in
    heard-append n first second
    ∙ ap (λ k. heard k second) (update_state-heard n itf.is_up)
    ∙ update_addr-heard n₁ (first_address itf.addresses)

-- As long as the interface is found, a listener that knows the address and the link, and is told of
-- every change, knows them after any number of polls.
pub polls-heard :
    (n : NetworkInfo) (itfs : List Interface)
    → heard n (polls n (map (λ i. some i) itfs)).1 ≡ (polls n (map (λ i. some i) itfs)).0
unfolding polls
polls-heard n [] = refl
polls-heard n (itf ∷ itfs) =
    let (n₁, first) = update_net_info n (some itf) in
    heard-append n first (polls n₁ (map (λ i. some i) itfs)).1
    ∙ ap (λ k. heard k (polls n₁ (map (λ i. some i) itfs)).1) (update-heard n itf)
    ∙ polls-heard n₁ itfs

-- An interface that was up, is not found in one poll, and is back as it was in the next: a listener
-- is told that the link is down and no more, while the state says up all the time.
pub vanished_unheard :
    (n : NetworkInfo) (itf : Interface)
    → n.if_state ≡ true
    → itf.is_up ≡ true
    → first_address itf.addresses ≡ n.ip_addr
    → polls n (none ∷ some itf ∷ []) ≡ (n, link_status_changed false ∷ [])
unfolding polls update_net_info update_state update_addr
vanished_unheard n itf up back same =
    let itself : str_eq n.ip_addr n.ip_addr ≡ true = (eq_iff n.ip_addr n.ip_addr).1 refl in
    rw (update_net_info, update_state, up, back, update_addr, same, itself) refl
