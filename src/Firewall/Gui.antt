-- ===== src/Firewall/Gui.antt =====
-- keysas-firewall/daemon/src/linux/gui_interface.rs: the calls of the tray application over D-Bus, and the
-- questions to the user.
use keysas.Base.{
  ℕ, Bool, false, Option, none, some, List, [], ◌∷◌, ◌++◌, Text, codes, is_empty, text_eq, ◌==◌,
  if◌then◌else◌, Result, ok, err, message, or_err, ◌>>=◌,
}
use keysas.Firewall.{
  UsbAuthorization, block, allow_read, allow_rw, allow_all, UsbUpdateMessage, Controller, Effect,
}
use keysas.Firewall.Devices.{request_usb_update}
use keysas.Firewall.Files.{FileUpdateMessage}

-- The number of an authorisation in a call of `update_usb_authorization`.
unfoldable pub authorization_of : ℕ → Option UsbAuthorization
authorization_of auth =
    if auth == 1
    then some block
    else if auth == 2
    then some allow_read
    else if auth == 3
    then some allow_rw
    else if auth == 4
    then some allow_all
    else none

-- A failure of the controller is only logged.
unfoldable pub update_usb_authorization :
    Controller → Text → ℕ → Bool → Result (Unit {0}) × List Effect
unfolding authorization_of
update_usb_authorization ctrl device auth filter_ok = elim (authorization_of auth) [
  | none ↦ (err (message (codes "auth must be 1..4")), [])
  | some authorization ↦ (ok tt, (request_usb_update ctrl device authorization filter_ok).1)
]

-- The names in `/run/user`, none where it cannot be read, and what exists.
first_bus : (Text → Bool) → List Text → Option Text
unfolding text_eq
first_bus exists [] = none
first_bus exists (uid ∷ uids) =
    let later = first_bus exists uids in
    if text_eq uid (codes "0")
    then later
    else if exists (codes "/run/user/" ++ uid ++ codes "/bus")
    then some (codes "unix:path=/run/user/" ++ uid ++ codes "/bus")
    else later

unfoldable pub session_bus_address : (Text → Bool) → Option (List Text) → Result Text
unfolding first_bus
session_bus_address exists entries = do
  uids ← or_err entries (message (codes "Cannot scan /run/user: "))
  or_err (first_bus exists uids) (message (codes "No user session bus found in /run/user/*/bus"))

-- A signal of the notification server, in the order in which the two threads see them. A signal whose
-- arguments cannot be read has none.
pub data Signal : Type 0 where
  action_invoked : ℕ → Text → Signal
  notification_closed : ℕ → Signal
  unreadable : Signal

-- The first signal about the notification decides; where none comes in time, the answer is no.
unfoldable pub first_answer : ℕ → List Signal → Bool
unfolding text_eq
first_answer id [] = false
first_answer id (action_invoked i key ∷ signals) =
    let later = first_answer id signals in if i == id then text_eq key (codes "allow") else later
first_answer id (notification_closed i ∷ signals) =
    let later = first_answer id signals in if i == id then false else later
first_answer id (unreadable ∷ signals) = first_answer id signals

-- `notify` is none where the connection, the proxy or the call fails, and else gives the notification.
unfoldable pub request_auth_dialog : Option ℕ → List Signal → Result Bool
unfolding first_answer
request_auth_dialog none signals = err (message (codes "Notify call failed: "))
request_auth_dialog (some id) signals = ok (first_answer id signals)

-- The question about a file, and the one about a device, with the text that is shown and the time in
-- seconds.
pub record Question : Type 0 where
  pub summary : Text
  pub body : Text
  pub timeout_secs : ℕ

unfoldable pub file_question : FileUpdateMessage → Question
file_question file = record {
  summary = codes "Fichier non vérifié — autoriser l'accès ?";
  body = codes "Le fichier suivant ne possède pas de rapport d'analyse valide :\n" ++ file.path;
  timeout_secs = 30;
}

unfoldable pub usb_question : UsbUpdateMessage → Question
usb_question usb = record {
  summary = codes "Clé USB non signée — autoriser le montage ?";
  body =
      codes "La clé « "
      ++ (usb.name
          ++ (codes " » (périphérique : "
              ++ (usb.device
                  ++ codes
                      ") n'est pas enrôlée dans Keysas.\nAutoriser uniquement si vous faites confiance à cette clé.")));
  timeout_secs = 60;
}

-- The dialog answers a question.
unfoldable pub ask : (Question → Option ℕ) → List Signal → Question → Result Bool
unfolding request_auth_dialog
ask notify signals q = request_auth_dialog (notify q) signals

unfoldable pub request_file_auth :
    (Question → Option ℕ) → List Signal → FileUpdateMessage → Result Bool
unfolding ask file_question
request_file_auth notify signals file = ask notify signals (file_question file)

unfoldable pub request_usb_auth :
    (Question → Option ℕ) → List Signal → UsbUpdateMessage → Result Bool
unfolding ask usb_question
request_usb_auth notify signals usb = ask notify signals (usb_question usb)

-- The notification of a device: its summary, its icon and its body.
unfoldable pub usb_notice : UsbUpdateMessage → UsbAuthorization → Text × Text
usb_notice update allow_read =
    (codes "Clé USB autorisée (lecture) — " ++ update.name, codes "security-medium")
usb_notice update allow_rw = (codes "Clé USB autorisée — " ++ update.name, codes "security-low")
usb_notice update allow_all = (codes "Clé USB autorisée — " ++ update.name, codes "security-low")
usb_notice update _ = (codes "Clé USB bloquée — " ++ update.name, codes "security-high")

unfoldable pub send_usb_update : UsbUpdateMessage → Text × Text × Text
unfolding usb_notice
send_usb_update update =
    let (summary, icon) = usb_notice update update.authorization in
    (
      summary,
      (if is_empty update.path
          then codes "Périphérique : " ++ update.device
          else codes "Monté sur : " ++ update.path),
      icon,
    )
