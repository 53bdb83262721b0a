-- ===== src/Alpine/Tests.antt =====
-- An installation and a command line of app/zmux/linuxenv.py at concrete inputs.
use zabawheels.Prelude.Dict.{has_id, insert, lookup}
use zabawheels.Prelude.Outcome.{returned}
use zabawheels.Prelude.{
  arith, ◌≡◌, refl, true, false, none, some, List, [], ◌∷◌, Text, codes, bytes_eq, strip,
  strip_left, strip_right, starts_with,
}
use zabawheels.Zpip.Wheel.{is_unsafe, parts, kept_parts, split_slashes}
use zabawheels.Alpine.{
  Tree, World, Disk, piece, alpine_sha512, is_installed, installed_version, read_chunks, download,
  scan_members, safe_extract, with_host_resolv, with_resolv, bootstrap, cleared, replace_root, swap,
  stage, install_downloaded, install_pinned, install,
}
use zabawheels.Alpine.Install.{Ends, install-Ends}
use zabawheels.Alpine.Guest.{
  Device, relative_to, guest_cwd, storage_paths, storage_bind_paths, build_interactive_argv,
}
use zabawheels.Alpine.Guest.Argv.{Options, read_options, no_options, login_shell}
use zabawheels.Alpine.Guest.Shell.{IsShell, build_interactive_argv-IsShell}

abbrev digest : Text
digest =
    codes
      "daf0cedbcbe47f1108bea745a0722e42f0ec0f0c08dd1e8b255234a48f2e5d45d0c96b437bcf60be2ee7ced261870a736e4831bc55924f73b23756283ecfb29b"

abbrev busybox : Tree
busybox = (codes "bin/busybox", codes "ELF") ∷ []

abbrev world : World
world = record {
  arch = codes "x86_64";
  mirror = codes "https://mirror";
  announced = returned 4;
  body = piece (codes "ta") ∷ piece (codes "r") ∷ piece [] ∷ [];
  sha512 = λ bytes. digest;
  members =
      λ bytes. returned (record { name = codes "bin/busybox"; is_file = true; size = 3 } ∷ []);
  unpack = λ bytes. returned busybox;
  host_resolv = none;
  can_write = true;
  partial = [];
  rmtree = λ tree. none;
}

abbrev empty_disk : Disk
empty_disk = record { rootfs = none; staging = none; tarball = none }

pinned : alpine_sha512 (codes "x86_64") ≡ some digest
unfolding alpine_sha512 bytes_eq
pinned = refl

installed :
    (install world empty_disk).0 ≡ returned (record { already = false; version = codes "3.22.5" })
unfolding install install_pinned install_downloaded stage swap replace_root cleared bootstrap
    with_resolv with_host_resolv safe_extract scan_members download read_chunks is_installed
    installed_version alpine_sha512 bytes_eq insert lookup strip strip_left strip_right is_unsafe
    parts kept_parts split_slashes has_id starts_with
installed = refl

install-Ends_example :
    (is_installed empty_disk.rootfs ≡ true → (install world empty_disk).1 ≡ empty_disk)
    × (is_installed empty_disk.rootfs ≡ false
        → Ends world digest empty_disk (install world empty_disk))
install-Ends_example = install-Ends world empty_disk digest pinned

abbrev phone : Device
phone = record {
  proot = some (codes "/lib/libproot.so");
  rootfs = codes "/data/rootfs";
  home_dir = codes "/data/home";
  home_parts = codes "data" ∷ codes "home" ∷ [];
  app_path = [];
  external_storage = codes "/sdcard";
  android_storage = codes "/storage";
  is_dir = λ path. bytes_eq path (codes "/sdcard");
  has_resolv = false;
}

abbrev project : List Text
project = codes "data" ∷ codes "home" ∷ codes "projects" ∷ []

project_cwd : guest_cwd phone.home_parts project ≡ codes "/root/projects"
unfolding guest_cwd relative_to bytes_eq
project_cwd = refl

sdcard_once : storage_bind_paths phone ≡ codes "/sdcard" ∷ []
unfolding storage_bind_paths storage_paths has_id bytes_eq
sdcard_once = refl

build_interactive_argv-IsShell_example :
    (args : List Text) × (build_interactive_argv phone project
      ≡ some (codes "/lib/libproot.so" ∷ args))
    × (o : Options) × (read_options args no_options ≡ some (o, login_shell))
    × IsShell phone project o
build_interactive_argv-IsShell_example =
    build_interactive_argv-IsShell phone project (codes "/lib/libproot.so") refl (omega arith)
