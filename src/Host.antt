-- ===== src/Host.antt =====
-- src/types.h and src/server/helper.h: the address of a host.
pub mod Same
use dnbd3_fuse_lowlevel.Prelude.{
  ℕ, List, [], ◌∷◌, Bool, true, false, ◌&&◌, ◌==◌, if◌then◌else◌, take,
}

-- `dnbd3_host_t`
pub record Host : Type 0 where
  pub addr : List ℕ
  pub port : ℕ
  pub type : ℕ

-- `HOST_IP4`
abbrev pub host_ip4 : ℕ
host_ip4 = 2

-- `0 == memcmp( a, b, n )` of buffers of `n` bytes
unfoldable pub same_bytes : List ℕ → List ℕ → Bool
same_bytes [] [] = true
same_bytes [] (b ∷ bs) = false
same_bytes (a ∷ as') [] = false
same_bytes (a ∷ as') (b ∷ bs) = (a == b) && same_bytes as' bs

addr_len : ℕ → ℕ
addr_len type = if type == host_ip4 then 4 else 16

-- `isSameAddress` and `isSameAddressPort`
unfoldable pub is_same_address : Host → Host → Bool
unfolding same_bytes addr_len
is_same_address a b =
    (a.type == b.type) && same_bytes (take (addr_len a.type) a.addr) (take (addr_len a.type) b.addr)

unfoldable pub is_same_address_port : Host → Host → Bool
unfolding same_bytes addr_len
is_same_address_port a b =
    (a.type == b.type)
    && ((a.port == b.port)
        && same_bytes (take (addr_len a.type) a.addr) (take (addr_len a.type) b.addr))
