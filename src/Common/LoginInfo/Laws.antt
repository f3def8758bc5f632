-- ===== src/Common/LoginInfo/Laws.antt =====
-- Writing, reading and copying a login.
use meanwhile.Base.{none, arith, ◌++◌}
use meanwhile.Buffer.Put.Laws.{Writes, bytes_if}
use meanwhile.Buffer.Get.{branch, pure}
use meanwhile.Buffer.Get.Laws.{Reads, pure-Reads, unless_error-Reads, Reads->>=, Reads-end}
use meanwhile.Buffer.Get.Safe.{IsReader}
use meanwhile.Basic.Wire.{wire_str, wire32}
use meanwhile.Basic.Reads.{
  string_get-Reads, guint16_get-Reads, guint32_get-Reads, gboolean_get-Reads,
}
use meanwhile.Common.Rules.{writers, safe_readers, branch-Reads, pure_eq-Reads}
use meanwhile.Common.LoginInfo.{
  LoginInfo, login_info_zero, login_info_put, login_info_get, login_info_get_full, wire_login_info,
  IsLoginInfo,
}

pub login_info_put-Writes : (l : LoginInfo) → Writes (login_info_put l) (wire_login_info l)
unfolding login_info_put wire_login_info
login_info_put-Writes l = search writers depth 12

pub login_info_get-IsReader : (old : LoginInfo) → IsReader (login_info_get old)
unfolding login_info_get login_info_get_full
login_info_get-IsReader old = search safe_readers depth 14

-- A login as far as it is sent in any case.
abbrev head_part : LoginInfo → LoginInfo
head_part l = record l { desc = none; ip_addr = 0; server_id = none }

full_part :
    (l : LoginInfo)
    → IsLoginInfo l
    → Reads
        (login_info_get_full (head_part l))
        (wire_str l.desc ++ (wire32 l.ip_addr ++ wire_str l.server_id))
        l
unfolding login_info_get_full
full_part l h = Reads->>= _ (string_get-Reads _ h.desc_ok) (
    Reads->>= _ (guint32_get-Reads _ _ h.ip_addr_ok)
      (Reads-end _ (string_get-Reads _ h.server_id_ok) (pure-Reads _)))

login_info_rest :
    (l : LoginInfo)
    → IsLoginInfo l
    → Reads
        (branch l.full (login_info_get_full (head_part l)) (pure (head_part l)))
        (bytes_if l.full (wire_str l.desc ++ (wire32 l.ip_addr ++ wire_str l.server_id)))
        l
login_info_rest l h =
    branch-Reads l.full (λ e. full_part l h) (λ e. pure_eq-Reads (ground (arith, h.brief e)))

pub login_info_get-Reads :
    (l : LoginInfo) → IsLoginInfo l → Reads (login_info_get login_info_zero) (wire_login_info l) l
unfolding login_info_get wire_login_info
login_info_get-Reads l h = unless_error-Reads login_info_zero (
    Reads->>= _ (string_get-Reads _ h.login_id_ok) (
      Reads->>= _ (guint16_get-Reads _ _ h.type_ok) (
        Reads->>= _ (string_get-Reads _ h.user_id_ok) (
          Reads->>= _ (string_get-Reads _ h.user_name_ok) (
            Reads->>= _ (string_get-Reads _ h.community_ok)
              (Reads->>= _ (gboolean_get-Reads _ _) (login_info_rest l h)))))))
