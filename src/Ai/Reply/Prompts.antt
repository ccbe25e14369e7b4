-- ===== src/Ai/Reply/Prompts.antt =====
-- The prompts of handlers/generateAiReply.ts.
use automatebro.Prelude.{
  String, Option, none, some, [], ◌∷◌, ◌++◌, length, ◌==◌, or_default, str_eq, if◌then◌else◌,
}
use automatebro.Records.{Text}
use automatebro.Whatsapp.StopKeywords.{codes}

-- "\n\n"
abbrev blank_line : Text
blank_line = 10 ∷ 10 ∷ []

unfoldable pub system_prompt_base : Text
system_prompt_base =
    codes
      "You are a helpful Instagram assistant replying to user comments. Detect the language of the user's last message (English, Hindi written in Devanagari script, Hinglish — Hindi written in Latin script — or other). Reply in the SAME language and script as the user. If the language is none of those or you're unsure, reply in English. Keep replies concise (under 200 characters), warm, and aligned with the brand voice. Never make promises about prices, deals, or product availability you cannot verify. End with a single relevant emoji unless the brand voice indicates otherwise."

-- `TONE_HINTS`, nothing for another tone.
unfoldable pub tone_hint : Option String → Text
tone_hint none = []
tone_hint (some tone) =
    if str_eq tone "friendly"
    then codes "Use a warm, casual tone with simple language."
    else if str_eq tone "professional"
    then codes "Use a polite, professional tone. Avoid slang."
    else if str_eq tone "playful"
    then codes "Use a fun, energetic tone. Light humor allowed."
    else []

-- `.filter((s) => s.length > 0).join('\n\n')` for what follows the base, which is not empty.
abbrev joined : Text → Text
joined part = if length part == 0 then [] else blank_line ++ part

unfoldable pub system_prompt : Option String → Option Text → Text
unfolding tone_hint
system_prompt tone custom =
    system_prompt_base ++ joined (tone_hint tone) ++ joined (or_default custom [])

unfoldable pub user_prompt : Text → Text
user_prompt content =
    codes
      "A user just commented on our Instagram post. Their comment is below — write a single short reply DM. Do not reveal you are an AI."
    ++ blank_line
    ++ codes "Comment: "
    ++ (if length content == 0 then codes "(no comment text)" else content)
