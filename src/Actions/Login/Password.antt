-- ===== src/Actions/Login/Password.antt =====
-- What a successful login needs.
use cftp_server.Base.{
  ◌≡◌, sym, ◌∙◌, true, some, Bytes, bytes, arith, strcmp_eq_iff, Option-cases, inl, inr,
}
use cftp_server.Faults.{ok}
use cftp_server.System.{System, Passwd}
use cftp_server.Actions.Login.{Login, authenticate_and_switch_user, check_password, switch_user}

module _ (sys : System) where
  open sys use {World, getpwnam, getspnam, crypt, chroot, chdir, setgid, setuid}

  -- The four calls that enter the jail and take on the identity of a user, all successful.
  pub record Switched (user : Passwd) (w : World) (after : World) : Type 0 where
    pub jailed : (chroot w user.pw_dir).0 ≡ true
    pub moved : (chdir (chroot w user.pw_dir).1 (bytes "/")).0 ≡ true
    pub group : World
    pub group_set :
        setgid (chdir (chroot w user.pw_dir).1 (bytes "/")).1 user.pw_gid ≡ (true, group)
    pub user_set : setuid group user.pw_uid ≡ (true, after)

  -- The evidence behind a login: the user and the stored password, which the given password
  -- encrypts to, and the calls made for that user.
  pub record Admitted (name password : Bytes) (w : World) (login : Login sys) : Type 0 where
    pub user : Passwd
    pub stored : Bytes
    pub known : getpwnam w name ≡ some user
    pub shadow : getspnam w name ≡ some stored
    pub right : crypt password stored ≡ some stored
    pub switched : Switched user w login.after

  switch_user-Switched :
      (name : Bytes) (pw : Passwd) (w : World)
      → (switch_user sys name pw w).success ≡ true
      → Switched pw w (switch_user sys name pw w).after
  unfolding switch_user
  switch_user-Switched name pw w h = record {
    jailed = ground arith;
    moved = ground arith;
    group = (setgid (chdir (chroot w pw.pw_dir).1 (bytes "/")).1 pw.pw_gid).1;
    group_set = ground arith;
    user_set = ground arith;
  }

  check_password-Admitted :
      (name password stored : Bytes) (pw : Passwd) (w : World) (login : Login sys)
      → check_password sys name password stored pw w ≡ ok login
      → login.success ≡ true
      → (crypt password stored ≡ some stored) × (login ≡ switch_user sys name pw w)
  unfolding check_password
  check_password-Admitted name password stored pw w login ran success =
      elim (Option-cases (crypt password stored)) [
        | inl absent ↦ absurd (ground arith)
        | inr (encrypted, made) ↦ ground (arith, strcmp_eq_iff encrypted stored)
      ]

  pub authenticate-check :
      (name password stored : Bytes) (pw : Passwd) (w : World)
      → getpwnam w name ≡ some pw
      → getspnam w name ≡ some stored
      → authenticate_and_switch_user sys name password w
        ≡ check_password sys name password stored pw w
  unfolding authenticate_and_switch_user
  authenticate-check name password stored pw w known shadow = ground arith

  -- A login succeeds only for a known user whose stored password the given one encrypts to, and
  -- only after the changes of root, directory, group and user for that user have all succeeded.
  pub authenticate-Admitted :
      (name password : Bytes) (w : World) (login : Login sys)
      → authenticate_and_switch_user sys name password w ≡ ok login
      → login.success ≡ true
      → Admitted name password w login
  unfolding authenticate_and_switch_user
  authenticate-Admitted name password w login ran success = elim (Option-cases (getpwnam w name)) [
    | inl absent ↦ absurd (ground arith)
    | inr (pw, known) ↦ elim (Option-cases (getspnam w name)) [
      | inl absent ↦ absurd (ground arith)
      | inr (stored, shadow) ↦
          let checked : check_password sys name password stored pw w ≡ ok login =
            sym (authenticate-check name password stored pw w known shadow) ∙ ran in
          let (right, same) =
            check_password-Admitted name password stored pw w login checked success in
          record {
            user = pw;
            stored = stored;
            known = known;
            shadow = shadow;
            right = right;
            switched = rw same (switch_user-Switched name pw w (rw same at success));
          }
    ]
  ]
