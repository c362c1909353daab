-- ===== src/Network.antt =====
-- libsrc/networkinfo.cpp and libsrc/httpclient.cpp: the address and the link of the network
-- interface, and the downloads. What QNetworkInterface and QNetworkAccessManager report is given.
pub mod Link
pub mod Downloads
use digital_rooster_gui.Base.{
  ℕ, suc, String, Bool, true, false, not, List, [], ◌∷◌, ◌++◌, Option, none, some, str_eq, ◌==◌,
  if◌then◌else◌,
}

-- A valid QNetworkInterface.
pub record Interface : Type 0 where
  pub is_up : Bool
  pub addresses : List String

pub record NetworkInfo : Type 0 where
  pub ip_addr : String
  pub if_state : Bool

pub data Signal : Type 0 where
  link_status_changed : Bool → Signal
  ip_addr_changed : String → Signal

abbrev pub init : NetworkInfo
init = record { ip_addr = ""; if_state = false }

unfoldable pub first_address : List String → String
first_address [] = "None"
first_address (addr ∷ _) = addr

-- `!=` on bool
abbrev pub differ : Bool → Bool → Bool
differ true b = not b
differ false b = b

update_state : NetworkInfo → Bool → NetworkInfo × List Signal
update_state n cur_state =
    if differ cur_state n.if_state
    then (record n { if_state = cur_state }, link_status_changed cur_state ∷ [])
    else (n, [])

update_addr : NetworkInfo → String → NetworkInfo × List Signal
update_addr n addr =
    if str_eq addr n.ip_addr
    then (n, [])
    else (record n { ip_addr = addr }, ip_addr_changed addr ∷ [])

-- The interface of that name; `none` is an interface that is not valid.
unfoldable pub update_net_info : NetworkInfo → Option Interface → NetworkInfo × List Signal
unfolding update_state update_addr
update_net_info n none = (n, link_status_changed false ∷ [])
update_net_info n (some itf) =
    let (n₁, first) = update_state n itf.is_up in
    let (n₂, second) = update_addr n₁ (first_address itf.addresses) in (n₂, first ++ second)

-- The events of the timer.
unfoldable pub polls : NetworkInfo → List (Option Interface) → NetworkInfo × List Signal
polls n [] = (n, [])
polls n (itf ∷ itfs) =
    let (n₁, first) = update_net_info n itf in let (n₂, rest) = polls n₁ itfs in (n₂, first ++ rest)

-- `pending_downloads` holds the replies; the manager numbers them.
pub record HttpClient : Type 0 where
  pub pending_downloads : List ℕ
  pub next_reply : ℕ

-- The request that goes to the manager.
unfoldable pub do_download : HttpClient → String → HttpClient × String
do_download c url = (
  record {
    pending_downloads = c.pending_downloads ++ c.next_reply ∷ [];
    next_reply = suc c.next_reply;
  },
  url,
)

-- std::remove and erase
unfoldable pub remove : ℕ → List ℕ → List ℕ
remove reply [] = []
remove reply (r ∷ rs) = let rest = remove reply rs in if r == reply then rest else r ∷ rest

-- dataAvailable of the content, or nothing where the reply has an error.
available : {A : Type 0} → Option A → List A
available none = []
available (some content) = content ∷ []

unfoldable pub download_finished : {A : Type 0} → HttpClient → ℕ → Option A → HttpClient × List A
unfolding available
download_finished c reply content =
    (record c { pending_downloads = remove reply c.pending_downloads }, available content)
