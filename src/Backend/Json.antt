-- ===== src/Backend/Json.antt =====
-- `serde_json::Value` with the accessors that the source calls, and the values that the derived
-- `Serialize` of keysas_lib/src/file_report.rs makes of the metadata of a report.
use keysas.Base.{ℕ, Bool, Option, none, some, List, [], ◌∷◌, Text, codes, text_eq, if◌then◌else◌}
use keysas.Report.{FileReport, MetaData, Bd, Report}

-- A number is kept if it is a u64, none otherwise.
mutual
  pub data Value : Type 0 where
    null : Value
    bool : Bool → Value
    number : Option ℕ → Value
    string : Text → Value
    array : Items → Value
    object : Members → Value

  pub data Items : Type 0 where
    nil : Items
    item : Value → Items → Items

  pub data Members : Type 0 where
    end : Members
    member : Text → Value → Members → Members

member_of : Text → Members → Value
member_of key end = null
member_of key (member name value members) =
    let rest = member_of key members in if text_eq name key then value else rest

-- `value[key]`: null where the value is no object or has no such key.
unfoldable pub index : Text → Value → Value
unfolding member_of text_eq
index key (object members) = member_of key members
index key _ = null

unfoldable pub as_bool : Value → Option Bool
as_bool (bool b) = some b
as_bool _ = none

unfoldable pub as_str : Value → Option Text
as_str (string t) = some t
as_str _ = none

unfoldable pub as_u64 : Value → Option ℕ
as_u64 (number n) = n
as_u64 _ = none

items_list : Items → List Value
items_list nil = []
items_list (item value items) = value ∷ items_list items

unfoldable pub as_array : Value → Option (List Value)
unfolding items_list
as_array (array items) = some (items_list items)
as_array _ = none

unfoldable pub strings : List Text → Items
strings [] = nil
strings (t ∷ ts) = item (string t) (strings ts)

unfoldable pub file_report_value : FileReport → Value
unfolding strings
file_report_value r = object (
    member (codes "yara") (string r.yara) (
      member (codes "av") (array (strings r.av)) (
        member (codes "type_allowed") (bool r.type_allowed) (
          member (codes "size") (number (some r.size)) (
            member (codes "corrupted") (bool r.corrupted) (
              member (codes "toobig") (bool r.toobig) (
                member (codes "is_digest_ok") (bool r.is_digest_ok) (
                  member (codes "specialized_pass") (bool r.specialized_pass) (
                    member (codes "specialized_analyzer") (string r.specialized_analyzer) (
                      member (codes "specialized_summary") (string r.specialized_summary) (
                        member (codes "vt_pass") (bool r.vt_pass) (
                          member (codes "vt_detections") (number (some r.vt_detections))
                            (member (codes "vt_summary") (string r.vt_summary) end)))))))))))))

unfoldable pub metadata_value : MetaData → Value
unfolding file_report_value
metadata_value m = object (
    member (codes "name") (string m.name) (
      member (codes "date") (string m.date) (
        member (codes "file_type") (string m.file_type) (
          member (codes "is_valid") (bool m.is_valid)
            (member (codes "report") (file_report_value m.report) end)))))

unfoldable pub binding_value : Bd → Value
binding_value b = object (
    member (codes "file_digest") (string b.file_digest) (
      member (codes "metadata_digest") (string b.metadata_digest) (
        member (codes "station_certificate") (string b.station_certificate)
          (member (codes "report_signature") (string b.report_signature) end))))

unfoldable pub report_value : Report → Value
unfolding metadata_value binding_value
report_value r = object (
    member (codes "metadata") (metadata_value r.metadata)
      (member (codes "binding") (binding_value r.binding) end))
