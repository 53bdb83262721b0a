-- ===== src/Alpine/Guest/Argv.antt =====
-- What PRoot reads in the command line that app/zmux/linuxenv.py builds: its options stand in front,
-- some of them with a value, and the guest's command is the rest.
use zabawheels.Prelude.{
  ◌≡◌, refl, sym, ap, ◌∙◌, Bool, true, false, Option, none, some, List, [], ◌∷◌, ◌++◌, map, Text,
  codes, bytes_eq, starts_with, if◌then◌else◌, append_assoc, append-nil,
}
use zabawheels.Alpine.Guest.{
  Device, guest_cwd, storage_bind_paths, bind_args, onto_itself, bind_flags, build_proot_argv,
  insert_at, build_interactive_argv,
}

-- The options `-r`, `-w` and `-b`, and the others.
pub record Options : Type 0 where
  pub root : Text
  pub cwd : Text
  pub binds : List Text
  pub switches : List Text

-- The option `-b`, `-r` or `-w`, another option, or the first word of the command.
pub data Kind : Type 0 where
  bind : Kind
  root_option : Kind
  cwd_option : Kind
  switch : Kind
  word : Kind

abbrev pub kind_of : Text → Kind
kind_of arg =
    if bytes_eq arg (codes "-b")
    then bind
    else if bytes_eq arg (codes "-r")
    then root_option
    else if bytes_eq arg (codes "-w")
    then cwd_option
    else if starts_with (codes "-") arg
    then switch
    else word

-- The options, and the command after them; `none` where the value of an option is missing.
unfoldable pub read_options : List Text → Options → Option (Options × List Text)
unfolding bytes_eq starts_with
read_options [] o = some (o, [])
read_options (a ∷ []) o = elim (kind_of a) [
  | switch ↦ some (record o { switches = o.switches ++ a ∷ [] }, [])
  | word ↦ some (o, a ∷ [])
  | _ ↦ none
]
read_options (a ∷ v ∷ args) o = elim (kind_of a) [
  | bind ↦ read_options args (record o { binds = o.binds ++ v ∷ [] })
  | root_option ↦ read_options args (record o { root = v })
  | cwd_option ↦ read_options args (record o { cwd = v })
  | switch ↦ read_options (v ∷ args) (record o { switches = o.switches ++ a ∷ [] })
  | word ↦ some (o, a ∷ v ∷ args)
]

abbrev pub no_options : Options
no_options = record { root = []; cwd = []; binds = []; switches = [] }

read_options-binds :
    (binds args : List Text) (o : Options)
    → read_options (bind_args binds ++ args) o
      ≡ read_options args (record o { binds = o.binds ++ binds })
unfolding read_options
read_options-binds [] args o =
    ap (λ bs. read_options args (record o { binds = bs })) (sym (append-nil o.binds))
read_options-binds (b ∷ binds) args o =
    read_options-binds binds args (record o { binds = o.binds ++ b ∷ [] })
    ∙ ap (λ bs. read_options args (record o { binds = bs })) (append_assoc o.binds (b ∷ []) binds)

-- The bind of resolv.conf.
abbrev pub resolv_binds : Bool → List Text
resolv_binds true = codes "/etc/resolv.conf:/etc/resolv.conf" ∷ []
resolv_binds false = []

abbrev pub login_shell : List Text
login_shell = codes "/bin/sh" ∷ codes "-l" ∷ []

read_options-end :
    (has_resolv : Bool) (cwd : Text) (o : Options)
    → read_options
        ((if has_resolv then codes "-b" ∷ codes "/etc/resolv.conf:/etc/resolv.conf" ∷ [] else [])
          ++ (codes "-w" ∷ cwd ∷ login_shell))
        o
      ≡ some (record o { cwd = cwd; binds = o.binds ++ resolv_binds has_resolv }, login_shell)
unfolding read_options
read_options-end true cwd o = refl
read_options-end false cwd o =
    ap (λ bs. some (record o { cwd = cwd; binds = bs }, login_shell)) (sym (append-nil o.binds))

-- The binds of the shell: the kernel's directories, the user's home, the storage, and resolv.conf.
abbrev pub shell_binds : Device → List Text
shell_binds d =
    (codes "/dev" ∷ codes "/proc" ∷ codes "/sys" ∷ (d.home_dir ++ codes ":/root") ∷ [])
    ++ (map onto_itself (storage_bind_paths d) ++ resolv_binds d.has_resolv)

-- What follows the binary.
abbrev shell_args : Device → List Text → List Text
shell_args d host_cwd =
    (codes "--kill-on-exit"
      ∷ codes "--link2symlink"
      ∷ codes "--sysvipc"
      ∷ codes "-0"
      ∷ codes "-r"
      ∷ d.rootfs
      ∷ [])
    ++ bind_flags d
    ++ bind_args []
    ++ (codes "-w" ∷ guest_cwd d.home_parts host_cwd ∷ [])
    ++ login_shell

shell_args-read :
    (d : Device) (host_cwd : List Text)
    → read_options (shell_args d host_cwd) no_options
      ≡ some (
        record {
          root = d.rootfs;
          cwd = guest_cwd d.home_parts host_cwd;
          binds = shell_binds d;
          switches =
              codes "--kill-on-exit" ∷ codes "--link2symlink" ∷ codes "--sysvipc" ∷ codes "-0" ∷ [];
        },
        login_shell,
      )
unfolding read_options bind_flags
shell_args-read d host_cwd =
    let front : Options = record {
      root = d.rootfs;
      cwd = [];
      binds = codes "/dev" ∷ codes "/proc" ∷ codes "/sys" ∷ (d.home_dir ++ codes ":/root") ∷ [];
      switches =
          codes "--kill-on-exit" ∷ codes "--link2symlink" ∷ codes "--sysvipc" ∷ codes "-0" ∷ [];
    } in
    let storage = map onto_itself (storage_bind_paths d) in
    let binds = bind_args storage in
    let resolv =
      if d.has_resolv then codes "-b" ∷ codes "/etc/resolv.conf:/etc/resolv.conf" ∷ [] else [] in
    let place : List Text = codes "-w" ∷ guest_cwd d.home_parts host_cwd ∷ [] in
    let shape : (binds ++ resolv) ++ [] ++ place ++ login_shell
        ≡ binds ++ (resolv ++ (place ++ login_shell)) =
      append_assoc ((binds ++ resolv) ++ []) place login_shell
      ∙ ap (λ l. l ++ (place ++ login_shell)) (append-nil (binds ++ resolv))
      ∙ append_assoc binds resolv (place ++ login_shell) in
    ap (λ l. read_options l front) shape
    ∙ read_options-binds storage (resolv ++ (place ++ login_shell)) front
    ∙ read_options-end d.has_resolv (guest_cwd d.home_parts host_cwd)
        (record front { binds = front.binds ++ storage })
    ∙ ap
        (λ bs.
          some (record front { cwd = guest_cwd d.home_parts host_cwd; binds = bs }, login_shell))
        (append_assoc front.binds storage (resolv_binds d.has_resolv))

-- The shell's command line, option by option: after the binary, the root, the working
-- directory in the guest, a bind for each directory that the shell is to see, and the four switches,
-- and the command is the login shell.
pub read_options-build_interactive_argv :
    (d : Device) (host_cwd : List Text) (proot : Text)
    → d.proot ≡ some proot
    → (args : List Text) × (build_interactive_argv d host_cwd ≡ some (proot ∷ args))
      × (read_options args no_options
          ≡ some (
            record {
              root = d.rootfs;
              cwd = guest_cwd d.home_parts host_cwd;
              binds = shell_binds d;
              switches =
                  codes "--kill-on-exit"
                  ∷ codes "--link2symlink"
                  ∷ codes "--sysvipc"
                  ∷ codes "-0"
                  ∷ [];
            },
            login_shell,
          ))
unfolding build_interactive_argv build_proot_argv insert_at
read_options-build_interactive_argv d host_cwd proot there =
    (shell_args d host_cwd, rw there refl, shell_args-read d host_cwd)
