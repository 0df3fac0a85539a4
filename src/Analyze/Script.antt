-- ===== src/Analyze/Script.antt =====
-- analyzers/script.rs: the search for patterns in the text of a script.
use keysas.Base.{
  Bool, true, false, ◌||◌, Option, none, some, List, [], ◌∷◌, ◌++◌, Text, codes, text_eq, contains,
  to_lowercase, Unicode, if◌then◌else◌,
}
use keysas.Analyze.Findings.{Verdict, Findings, no_findings, alert, inform, for_each, summary_of}
use keysas.Analyze.Category.{lower_extension}

-- The pattern, whether it blocks, and its description.
abbrev pub Pattern : Type 0
Pattern = Text × Bool × Text

abbrev pub ps1_patterns : List Pattern
ps1_patterns =
    (codes "Invoke-Expression", true, codes "dynamic code execution (IEX)")
    ∷ (codes "IEX", true, codes "dynamic code execution (IEX)")
    ∷ (codes "DownloadString", true, codes "downloads and executes remote code")
    ∷ (codes "-EncodedCommand", true, codes "obfuscated encoded command")
    ∷ (codes "bypass", true, codes "execution policy bypass")
    ∷ (codes "AMSI", true, codes "AMSI bypass attempt")
    ∷ (codes "FromBase64String", true, codes "base64 decoding (obfuscation)")
    ∷ (codes "Reflection.Assembly", true, codes "in-memory assembly loading")
    ∷ (codes "Start-Process", false, codes "process execution")
    ∷ (codes "System.Net.WebClient", false, codes "network download capability")
    ∷ []

abbrev pub js_hta_patterns : List Pattern
js_hta_patterns =
    (codes "eval(", true, codes "dynamic code evaluation")
    ∷ (codes "unescape(", true, codes "string deobfuscation")
    ∷ (codes "ActiveXObject", true, codes "ActiveX object (system access)")
    ∷ (codes "WScript.Shell", true, codes "shell execution via WScript")
    ∷ (codes "document.write(unescape", true, codes "obfuscated DOM injection")
    ∷ (codes "XMLHttpRequest", false, codes "HTTP request")
    ∷ (codes "String.fromCharCode", false, codes "character code obfuscation")
    ∷ []

abbrev pub vbs_patterns : List Pattern
vbs_patterns =
    (codes "WScript.Shell", true, codes "shell execution via WScript")
    ∷ (codes "Execute", true, codes "dynamic code execution")
    ∷ (codes "Eval", true, codes "dynamic code evaluation")
    ∷ (codes "Shell", true, codes "shell execution")
    ∷ (codes "CreateObject", false, codes "COM object creation")
    ∷ (codes "Chr(", false, codes "character encoding")
    ∷ (codes "StrReverse", false, codes "string obfuscation")
    ∷ []

abbrev pub py_sh_patterns : List Pattern
py_sh_patterns =
    (codes "os.system", true, codes "OS command execution")
    ∷ (codes "exec(", true, codes "dynamic code execution")
    ∷ (codes "__import__", true, codes "dynamic module import")
    ∷ (codes "subprocess", false, codes "subprocess execution")
    ∷ (codes "base64.b64decode", false, codes "base64 decoding")
    ∷ (codes "urllib.request", false, codes "network download")
    ∷ (codes "curl ", false, codes "curl invocation")
    ∷ (codes "wget ", false, codes "wget invocation")
    ∷ []

abbrev pub jnlp_patterns : List Pattern
jnlp_patterns =
    (codes "http://", true, codes "insecure HTTP jar loading")
    ∷ (codes "<jar ", false, codes "JAR dependency")
    ∷ (codes "<extension ", false, codes "JNLP extension")
    ∷ []

unfoldable pub patterns_of : Text → Option (List Pattern)
unfolding text_eq
patterns_of ext =
    if text_eq ext (codes "ps1") || text_eq ext (codes "bat")
    then some ps1_patterns
    else if text_eq ext (codes "js") || text_eq ext (codes "hta")
    then some js_hta_patterns
    else if text_eq ext (codes "vbs") || text_eq ext (codes "vbe")
    then some vbs_patterns
    else if text_eq ext (codes "py") || text_eq ext (codes "sh")
    then some py_sh_patterns
    else if text_eq ext (codes "jnlp")
    then some jnlp_patterns
    else none

-- How the descriptor can be read: `dup` fails, the file cannot be read as text, or its text.
pub data Opened : Type 0 where
  dup_failed read_failed : Opened
  content : Text → Opened

unfoldable pub note : Unicode → Text → Pattern → Findings → Findings
unfolding contains to_lowercase
note u content_lower (pattern, blocking, description) f =
    let text = pattern ++ codes " (" ++ description ++ codes ")" in
    if contains content_lower (to_lowercase u pattern)
    then (if blocking then alert text f else inform text f)
    else f

unfoldable pub build_summary : List Text → List Text → Text → Text
unfolding summary_of
build_summary blocking info ext =
    summary_of (codes "no suspicious patterns in ." ++ ext) blocking info

analyze_with : Unicode → Text → Text → Option (List Pattern) → Verdict
analyze_with u text ext none = (true, codes "unsupported script type")
analyze_with u text ext (some patterns) =
    let f = for_each (note u (to_lowercase u text)) patterns no_findings in
    (f.passed, build_summary f.blocking f.info ext)

unfoldable pub analyze : Unicode → Opened → Text → Verdict
unfolding analyze_with for_each note build_summary lower_extension patterns_of to_lowercase
analyze u dup_failed filename = (true, codes "fd dup failed")
analyze u read_failed filename = (true, codes "file read failed")
analyze u (content text) filename =
    let ext = lower_extension u filename in analyze_with u text ext (patterns_of ext)
