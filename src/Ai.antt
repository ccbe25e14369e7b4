-- ===== src/Ai.antt =====
-- Artificial intelligence: the client of OpenAI, the monthly budget, the classifier, the replies.
pub mod Openai
pub mod Usage
pub mod Classify
pub mod Reply
pub mod Tests
