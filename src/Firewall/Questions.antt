-- ===== src/Firewall/Questions.antt =====
-- A buffer with an event of the file filter, a device that is blocked, and a question to the user.
use keysas.Base.{◌≡◌, ◌↔◌, refl, true, false, none, some, List, [], ◌∷◌, Text, codes, text_eq, ok}
use keysas.Firewall.{UsbDevice, SecurityPolicy, Controller, allow_read}
use keysas.Firewall
use keysas.Firewall.Files.{authorize_file}
use keysas.Firewall.FileFilter.{FanEvent, responded, closed, Daemon, allows, handle_buffer}
use keysas.Firewall.Responses.{Allowed, allows-iff_Allowed}
use keysas.Firewall.Gui.{Signal, action_invoked, notification_closed, Question, ask}

abbrev same : Text → Text
same t = t

abbrev daemon : Daemon
daemon = record {
  pid = 1;
  lock_ok = true;
  open_now = true;
  lossy = same;
  files = record {
    is_dir = λ path. some false;
    is_file = λ path. text_eq path (codes "/mnt/.a.exe.krp");
  };
  request_file_auth = λ m. ok false;
}

abbrev opening : Text → FanEvent
opening path = record { event_len = 24; open_perm = true; fd = some 7; pid = 99; path = some path }

allows-iff_Allowed_example :
    (allows daemon (opening (codes "/mnt/a.exe")) ≡ true)
    ↔ Allowed daemon (opening (codes "/mnt/a.exe")) (codes "/mnt/a.exe")
allows-iff_Allowed_example =
    allows-iff_Allowed daemon (opening (codes "/mnt/a.exe")) (codes "/mnt/a.exe") refl

both-are_answered :
    handle_buffer 24 (λ offset. opening (codes "/mnt/a.exe")) daemon 48 49 0
    ≡ responded 7 true ∷ closed 7 ∷ responded 7 true ∷ closed 7 ∷ []
unfolding handle_buffer authorize_file
both-are_answered = refl

abbrev stick : UsbDevice
stick = record {
  device_id = codes "/dev/sdb1";
  mnt_point = some (codes "/mnt");
  vendor = codes "v";
  model = codes "m";
  revision = codes "1";
  serial = codes "s";
  usb_syspath = none;
}

abbrev held : Controller
held = record {
  policy = record {
    disable_unsigned_usb = false;
    allow_user_usb_authorization = false;
    allow_user_file_read = false;
    allow_user_file_write = false;
  };
  usb_ca_pub = record { classic = []; pq = [] };
  unmounted_usb = [];
  mounted_usb = (codes "/dev/sdb1", record { device = stick; auth = allow_read }) ∷ [];
}

abbrev question : Question
question = record { summary = codes "s"; body = codes "b"; timeout_secs = 30 }

abbrev signals : List Signal
signals = notification_closed 4 ∷ action_invoked 5 (codes "allow") ∷ notification_closed 5 ∷ []

allowed : ask (λ q. some 5) signals question ≡ ok true
unfolding ask
allowed = refl
