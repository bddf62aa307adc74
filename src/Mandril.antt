-- ===== src/Mandril.antt =====
-- The plugin of plugins/mandril/mandril.c: addresses that may not connect, and texts that a URI may not hold.
-- inet_aton is an argument. An address is the 32 bits of s_addr on a little-endian machine.
pub mod Urls
use Prim.Native.Nat.{bit_and, bit_or}
use monkey.Prelude.{
  ℕ, ◌+◌, ◌-◌, ◌*◌, ◌/◌, ◌%◌, ◌^◌, Bool, true, false, ◌&&◌, ◌||◌, Option, none, some, List, [], ◌∷◌,
  ◌++◌, length, leb, ◌==◌, if◌then◌else◌, ℤ, pos, negsuc, minus_one, leb_ℤ, ltb_ℤ, eq_ℤ, not,
  pos_part,
}
use monkey.Libc.{Bytes, codes, strlen, strcasecmp_eq}
use monkey.Libc.Numbers.{strtol, to_int}
use monkey.Text.{insensitive, copy_substr, string_search, string_search_n}
use monkey.Types.{Pointer, ClientSession, SessionRequest}
use monkey.Config.{Entry}
use monkey.Request.Header.{bytes_of}
use monkey.Serve.Plugins.{Callback, Turn, close_conx, keep_on}
use monkey.Serve.Errors.{set_status}

unfoldable pub htonl : ℕ → ℕ
htonl x =
    x % 2 ^ 8 * 2 ^ 24
    + x / 2 ^ 8 % 2 ^ 8 * 2 ^ 16
    + x / 2 ^ 16 % 2 ^ 8 * 2 ^ 8
    + x / 2 ^ 24 % 2 ^ 8

-- MK_NET_NETMASK up to MK_NET_HOSTMAX; a mask has 1 to 31 bits.
unfoldable pub net_netmask : ℕ → ℕ
net_netmask net = htonl ((2 ^ 32 - 1) * 2 ^ (32 - net) % 2 ^ 32)

unfoldable pub net_broadcast : ℕ → ℕ → ℕ
net_broadcast addr net = bit_or addr (2 ^ 32 - 1 - net_netmask net)

unfoldable pub net_network : ℕ → ℕ → ℕ
net_network addr net = bit_and addr (net_netmask net)

unfoldable pub net_hostmin : ℕ → ℕ → ℕ
net_hostmin addr net =
    if net == 31 then net_network addr net else (net_network addr net + 2 ^ 24) % 2 ^ 32

unfoldable pub net_hostmax : ℕ → ℕ → ℕ
net_hostmax addr net =
    if net == 31
    then net_broadcast addr net
    else (net_broadcast addr net + 2 ^ 32 - 2 ^ 24) % 2 ^ 32

-- struct mk_secure_ip_t
pub data SecureIp : Type 0 where
  host : ℕ → SecureIp
  subnet : (ip netmask network hostmin hostmax : ℕ) → SecureIp

-- The two lists, mk_secure_ip and mk_secure_url.
pub record Rules : Type 0 where
  pub secure_ip : List SecureIp
  pub secure_url : List Bytes

abbrev pub subnet_of : ℕ → ℕ → SecureIp
subnet_of ip netmask =
    subnet ip netmask (net_network ip netmask) (net_hostmin ip netmask) (net_hostmax ip netmask)

module _ (inet_aton : Bytes → Option ℕ) where
  -- An address with a mask behind a slash at `n`.
  unfoldable pub parse_subnet : ℕ → Bytes → Option SecureIp
  parse_subnet n val = elim (copy_substr val 0 n) [
    | none ↦ none
    | some net ↦ elim (copy_substr val (n + 1) (strlen val)) [
      | none ↦ none
      | some mask ↦ elim (inet_aton net) [
        | none ↦ none
        | some ip ↦
            let netmask = to_int (strtol mask) in
            if leb_ℤ netmask (pos 0) || leb_ℤ (pos 32) netmask
            then none
            else some (subnet_of ip (pos_part netmask))
      ]
    ]
  ]

  abbrev pub parse_host : Bytes → Option SecureIp
  parse_host val = elim (inet_aton val) [ none ↦ none | some ip ↦ some (host ip) ]

  unfoldable pub parse_ip : Bytes → Option SecureIp
  parse_ip val =
      let n = string_search val (codes "/") insensitive in
      if leb_ℤ n (pos 0) then parse_host val else parse_subnet (pos_part n) val

  abbrev pub add_ip : Option SecureIp → Rules → Rules
  add_ip none rules = rules
  add_ip (some ip) rules = record rules { secure_ip = rules.secure_ip ++ (ip ∷ []) }

  unfoldable pub add_rule : Entry → Rules → Rules
  add_rule entry rules =
      if strcasecmp_eq entry.key (codes "Deny_IP")
      then add_ip (parse_ip entry.val) rules
      else if strcasecmp_eq entry.key (codes "Deny_URL")
      then record rules { secure_url = rules.secure_url ++ (entry.val ∷ []) }
      else rules

  -- mk_security_conf, over the entries of the section.
  unfoldable pub security_conf : List Entry → Rules → Rules
  security_conf [] rules = rules
  security_conf (entry ∷ entries) rules = security_conf entries (add_rule entry rules)

-- The address is denied by a rule.
unfoldable pub is_denied : ℕ → SecureIp → Bool
is_denied s_addr (host ip) = s_addr == ip
is_denied s_addr (subnet ip netmask network hostmin hostmax) =
    net_network s_addr netmask == network && leb s_addr hostmax && leb hostmin s_addr

unfoldable pub check_ips : ℕ → List SecureIp → ℤ
check_ips s_addr [] = pos 0
check_ips s_addr (entry ∷ entries) =
    if is_denied s_addr entry then minus_one else check_ips s_addr entries

-- mk_security_check_ip; getpeername has failed, or it has left four bytes in `addr_t`.
unfoldable pub security_check_ip : Option ℕ → List SecureIp → ℤ
security_check_ip none entries = minus_one
security_check_ip (some s_addr) entries = check_ips s_addr entries

-- mk_security_check_url
unfoldable pub security_check_url : Bytes → ℕ → List Bytes → ℤ
security_check_url url len [] = pos 0
security_check_url url len (criteria ∷ urls) =
    if ltb_ℤ (string_search_n url criteria insensitive (pos len)) (pos 0)
    then security_check_url url len urls
    else minus_one

-- _mkp_stage_10: the connection is closed.
unfoldable pub stage_10 : Option ℕ → Rules → Bool
stage_10 peer rules = not (eq_ℤ (security_check_ip peer rules.secure_ip) (pos 0))

abbrev pub url_turn : ℤ → SessionRequest → Turn
url_turn ret sr =
    if ltb_ℤ ret (pos 0)
    then record { answer = close_conx; request = set_status sr 403; log = [] }
    else record { answer = keep_on; request = sr; log = [] }

-- _mkp_stage_20, of a request whose URI is known.
unfoldable pub stage_20 : Rules → Callback
stage_20 rules cs sr =
    url_turn (security_check_url (bytes_of sr.uri) sr.uri.len rules.secure_url) sr
