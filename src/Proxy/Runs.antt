-- ===== src/Proxy/Runs.antt =====
-- Login names and addresses that are taken apart, and the theorems of Proxy at concrete inputs.
use mysql8_audit_proxy.Base.{
  ◌≡◌, refl, Bool, false, [], Text, codes, text_eq, split, if◌then◌else◌, Result, ok, err,
}
use mysql8_audit_proxy.Proxy.Target.{get_target_info, get_user_pass}

-- A table of one user.
abbrev one_user : Text → Result Bool Text
one_user name = if text_eq name (codes "al@db") then ok (codes "pw") else err false

one_user_known : one_user (codes "al@db") ≡ ok (codes "pw")
unfolding text_eq
one_user_known = refl

-- A password with a colon is none.
get_target_info_colon :
    get_target_info (codes "al:p:w@db")
    ≡ record { user = codes "al:p:w"; server = codes "db"; pass = [] }
unfolding get_target_info get_user_pass split
get_target_info_colon = refl

-- With a second `@` there is no server.
get_target_info_at :
    get_target_info (codes "a@b@c") ≡ record { user = codes "a@b@c"; server = []; pass = [] }
unfolding get_target_info get_user_pass split
get_target_info_at = refl
