-- ===== src/Proxy/Target.antt =====
-- pkg/mysqlproxy/proxysrv.go: the target that a login name stands for, `user[:password][@host[:port]]`.
pub mod Laws
use mysql8_audit_proxy.Base.{
  ℕ, suc, ◌+◌, ◌≡◌, Bool, List, [], ◌∷◌, ◌++◌, Text, codes, length, split, ◌==◌, if◌then◌else◌,
}

two_parts : Text → List Text → Text × Text
two_parts s (user ∷ pass ∷ []) = (user, pass)
two_parts s _ = (s, [])

-- The user and the password.
unfoldable pub get_user_pass : Text → Text × Text
unfolding two_parts
get_user_pass s = two_parts s (split b':' s)

pub record TargetInfo : Type 0 where
  pub user : Text
  pub server : Text
  pub pass : Text

at_server : Text → Text × Text → TargetInfo
at_server server (user, pass) = record { user = user; server = server; pass = pass }

two_sides : Text → List Text → TargetInfo
unfolding at_server
two_sides s (login ∷ server ∷ []) = at_server server (get_user_pass login)
two_sides s _ = at_server [] (get_user_pass s)

unfoldable pub get_target_info : Text → TargetInfo
unfolding two_sides
get_target_info s = two_sides s (split b'@' s)

is_one {ℓ} : {A : Type ℓ} → List A → Bool
is_one ss = length ss == 1

with_port : Text → Text
unfolding is_one
with_port s = if is_one (split b':' s) then s ++ codes ":3306" else s

pub add_port : Text → Text
add_port s = with_port (if length s == 0 then codes "localhost:3306" else s)
